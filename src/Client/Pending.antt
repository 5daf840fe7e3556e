-- ===== src/Client/Pending.antt =====
-- client/nod-client-core/src/state.rs: stale requests, and the counts of pending ones.
use nod.Base.{
  ℕ, ◌+◌, ◌-◌, String, Bool, not, ◌&&◌, ◌||◌, List, [], ◌∷◌, ◌==◌, map, ltb, eqb, select,
  if◌then◌else◌, lookup, put, entry_or,
}
use nod.Proto.Request.{Request, is_pending}

-- A candidate is stale if it is older, or as old and undoes an outcome.
unfoldable pub request_is_stale : Request → Request → Bool
request_is_stale candidate held =
    ltb candidate.updated_at held.updated_at
    || eqb held.updated_at candidate.updated_at
      && not (is_pending held.status)
      && is_pending candidate.status

abbrev pub pending_requests : List Request → List Request
pending_requests requests = select (λ r. is_pending r.status) requests

unfoldable pub increment_pending_count : List (String × ℕ) → String → List (String × ℕ)
increment_pending_count counts channel_id =
    put channel_id (entry_or 0 (lookup channel_id counts) + 1) counts

unfoldable pub decrement_pending_count : List (String × ℕ) → String → List (String × ℕ)
decrement_pending_count counts channel_id =
    select (λ e. ltb 0 e.1) (map (λ e. if e.0 == channel_id then (e.0, e.1 - 1) else e) counts)

abbrev pub count_from : List (String × ℕ) → List Request → List (String × ℕ)
count_from counts [] = counts
count_from counts (r ∷ rs) = count_from (increment_pending_count counts r.channel_id) rs

unfoldable pub count_pending_by_channel : List Request → List (String × ℕ)
count_pending_by_channel requests = count_from [] requests

abbrev pub channels_from : List (String × String) → List Request → List (String × String)
channels_from known [] = known
channels_from known (r ∷ rs) = channels_from (put r.id r.channel_id known) rs

unfoldable pub pending_request_channels : List Request → List (String × String)
pending_request_channels requests = channels_from [] requests

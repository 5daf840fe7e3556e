-- ===== src/Client/Snapshot.antt =====
-- client/nod-client-core/src/state.rs: a snapshot that was fetched.
use nod.Base.{
  ℕ, String, Bool, true, false, not, ◌&&◌, Option, none, some, List, [], ◌∷◌, ltb, select,
  if◌then◌else◌, lookup, contains_key, put, values,
}
use nod.Proto.Request.{Request}
use nod.Client.Model.{Channel, User, UserDevice}
use nod.Client.Pending.{
  request_is_stale, pending_requests, count_pending_by_channel, pending_request_channels,
}
use nod.Client.State.{
  StateReducer, ensure_selected_request, update_visible_requests, ensure_selected_channel,
}

abbrev pub later_than : ℕ → Option ℕ → Bool
later_than started none = false
later_than started (some revision) = ltb started revision

abbrev pub is_older : Request → Option Request → Bool
is_older held none = false
is_older held (some fetched) = request_is_stale held fetched

-- Whether a request that is held stays in place of the snapshot's.
unfoldable pub survives : ℕ → List (String × ℕ) → List (String × Request) → String → Request → Bool
survives started revisions snapshot id held =
    later_than started (lookup id revisions) && not (is_older held (lookup id snapshot))

-- The loop over the requests that are held.
unfoldable pub keep_later :
    ℕ
    → List (String × ℕ)
    → List (String × Request)
    → List (String × Request)
    → List (String × Request)
keep_later started revisions [] snapshot = snapshot
keep_later started revisions ((id, held) ∷ rest) snapshot =
    keep_later started revisions rest
      (if survives started revisions snapshot id held then put id held snapshot else snapshot)

abbrev pub by_id : List (String × Request) → List Request → List (String × Request)
by_id held [] = held
by_id held (r ∷ rs) = by_id (put r.id r held) rs

unfoldable pub notification_candidates_after_refresh : StateReducer → List Request → List Request
notification_candidates_after_refresh r pending =
    if r.has_loaded_pending_snapshot
    then select (λ q. not (contains_key q.id r.known_pending_request_channels)) pending
    else []

-- The reducer with the requests that are held after the snapshot.
abbrev pub with_snapshot :
    Option User
    → List UserDevice
    → List Channel
    → List (String × Request)
    → StateReducer
    → StateReducer
with_snapshot current_user devices channels held r =
    let pending = pending_requests (values held) in
    let state =
      ensure_selected_channel
        (record r.state { current_user = current_user; devices = devices; channels = channels }) in
    record r {
      state = record state { pending_counts_by_channel = count_pending_by_channel pending };
      requests_by_id = held;
      request_revisions = select (λ e. contains_key e.0 held) r.request_revisions;
      known_pending_request_channels = pending_request_channels pending;
      has_loaded_pending_snapshot = true;
    }

unfoldable pub apply_snapshot :
    Option User
    → List UserDevice
    → List Channel
    → List Request
    → (started synced_at : ℕ) → (show_time : ℕ → String) → StateReducer
    → List Request × StateReducer
apply_snapshot current_user devices channels requests started synced_at show_time r =
    let held = keep_later started r.request_revisions r.requests_by_id (by_id [] requests) in
    let shown = update_visible_requests (with_snapshot current_user devices channels held r) in
    (
      notification_candidates_after_refresh r (pending_requests (values held)),
      record shown {
        state = record (ensure_selected_request shown.state) {
          last_error = none;
          last_synced_at = some (show_time synced_at);
        };
      },
    )

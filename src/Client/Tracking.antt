-- ===== src/Client/Tracking.antt =====
-- What the reducer of client/nod-client-core/src/state.rs keeps true of its maps: the requests stand under
-- their ids, and the counts, the known channels and the shown list follow from them.
pub mod Updates
pub mod Calls
pub mod Race
pub mod Snapshot
use nod.Base.{
  ℕ, zero, suc, ◌+◌, ◌-◌, ◌≡◌, refl, sym, ap, ◌∙◌, ◌⊎◌, inl, inr, String, Bool, true, false, not,
  ◌&&◌, ◌||◌, Option, none, some, List, [], ◌∷◌, ◌==◌, map, ltb, eqb, any, find, select, is_empty,
  insert_by, sort_by, if◌then◌else◌, Bool-cases, Option-cases, arith, eq_iff, eq_refl, UniqueKeys,
  put-UniqueKeys, lookup, put, remove, values, entry_or, count_values, counts_for, one_if,
  lookup-put, lookup-remove, count_values-put, All-put, All-lookup, All-values, All-both,
  counts_for-lookup-le, All, All-select, All-sort_by, All-find, All-map, find_sound,
}
use nod.Proto.Request.{Request, is_pending}
use nod.Client.Model.{ServerProfile, User, UserDevice, Channel, ClientState}
use nod.Client.Pending.{
  increment_pending_count, decrement_pending_count, count_pending_by_channel, count_from,
  pending_request_channels, channels_from, pending_requests,
}
use nod.Client.Visible.{
  visible_requests, visible_requests_for_selected_channel, limit_handled, shown_before,
  handled_limit,
}
use nod.Client.State.{
  StateReducer, update_visible_requests, ensure_selected_request, ensure_selected_channel,
  still_selected,
}
use nod.Client.Counting.{
  count_at, waits_in, pending_channel, ById, count_at-increment, count_at-decrement,
  increment_pending_count-UniqueKeys, decrement_pending_count-UniqueKeys,
}

pub record Consistent (counts : List (String × ℕ)) (known : List (String × String))
    (held : List (String × Request)) (shown : List Request) : Type 0 where
  pub unique : UniqueKeys counts
  pub counted : (c : String) → count_at c counts ≡ count_values (waits_in c) held
  pub known_channel : (id : String) → lookup id known ≡ pending_channel (lookup id held)
  pub keyed : ById held
  pub shown_is_held : All (λ r. lookup r.id held ≡ some r) shown

abbrev pub Tracked : StateReducer → Type 0
Tracked r =
    Consistent r.state.pending_counts_by_channel r.known_pending_request_channels r.requests_by_id
      r.state.requests

-- The values of a map of requests are found under their ids.
All-values-lookup :
    (m : List (String × Request)) → ById m → All (λ r. lookup r.id m ≡ some r) (values m)
All-values-lookup m h =
    All-values (λ r. lookup r.id m ≡ some r) m
      (All-map (λ e. (lookup e.0 m ≡ some e.1) × (e.1.id ≡ e.0)) (λ e. lookup e.1.id m ≡ some e.1) m
        (λ e k. ap (λ i. lookup i m) k.1 ∙ k.0)
        (All-both (λ e. lookup e.0 m ≡ some e.1) (λ e. e.1.id ≡ e.0) m (All-lookup m h.0) h.1))

All-limit_handled {κ} :
    (P : Request → Type κ) (left : ℕ) (rs : List Request) → All P rs → All P (limit_handled left rs)
All-limit_handled P zero [] h = tt
All-limit_handled P (suc left) [] h = tt
All-limit_handled P zero (r ∷ rs) h = elim (Bool-cases (is_pending r.status)) [
  | inl e ↦ rw e (h.0, All-limit_handled P zero rs h.1)
  | inr e ↦ rw e (All-limit_handled P zero rs h.1)
]
All-limit_handled P (suc left) (r ∷ rs) h = elim (Bool-cases (is_pending r.status)) [
  | inl e ↦ rw e (h.0, All-limit_handled P (suc left) rs h.1)
  | inr e ↦ rw e (h.0, All-limit_handled P left rs h.1)
]

-- Every request that is shown is one of the given.
All-visible_requests_for_selected_channel {κ} :
    (P : Request → Type κ) (selected : Option String) (rs : List Request)
    → All P rs
    → All P (visible_requests_for_selected_channel selected rs)
unfolding visible_requests_for_selected_channel visible_requests
All-visible_requests_for_selected_channel P none rs h =
    All-limit_handled P handled_limit (sort_by shown_before rs) (All-sort_by P shown_before rs h)
All-visible_requests_for_selected_channel P (some c) rs h =
    All-limit_handled P handled_limit (sort_by shown_before (select (λ r. r.channel_id == c) rs)) (
      All-sort_by P shown_before (select (λ r. r.channel_id == c) rs)
        (All-select P (λ r. r.channel_id == c) rs h))

-- The selection of a request leaves the rest alone.
ensure_selected_request-requests :
    (s : ClientState) → (ensure_selected_request s).requests ≡ s.requests
unfolding ensure_selected_request
ensure_selected_request-requests s =
    elim (Bool-cases (still_selected s.requests s.selected_request_id)) [
      | inl e ↦ rw e refl
      | inr e ↦ rw e refl
    ]

pub ensure_selected_request-pending_counts_by_channel :
    (s : ClientState)
    → (ensure_selected_request s).pending_counts_by_channel ≡ s.pending_counts_by_channel
unfolding ensure_selected_request
ensure_selected_request-pending_counts_by_channel s =
    elim (Bool-cases (still_selected s.requests s.selected_request_id)) [
      | inl e ↦ rw e refl
      | inr e ↦ rw e refl
    ]

-- The shown list is made anew from what is held.
pub update_visible_requests-Tracked :
    (r : StateReducer) (shown : List Request)
    → Consistent r.state.pending_counts_by_channel r.known_pending_request_channels r.requests_by_id
        shown
    → Tracked (update_visible_requests r)
unfolding update_visible_requests
update_visible_requests-Tracked r shown h = record {
  unique =
      rw (ensure_selected_request-pending_counts_by_channel (record r.state { requests = next }))
        h.unique;
  counted = λ c.
      rw (ensure_selected_request-pending_counts_by_channel (record r.state { requests = next }))
        (h.counted c);
  known_channel = h.known_channel;
  keyed = h.keyed;
  shown_is_held = rw (ensure_selected_request-requests (record r.state { requests = next })) (
      All-visible_requests_for_selected_channel (λ q. lookup q.id r.requests_by_id ≡ some q)
        r.state.selected_channel_id (values r.requests_by_id)
        (All-values-lookup r.requests_by_id h.keyed));
}
  where
    next : List Request
    next =
        visible_requests_for_selected_channel r.state.selected_channel_id (values r.requests_by_id)

pub ensure_selected_request-Tracked :
    (r : StateReducer)
    → Tracked r
    → Consistent
        (ensure_selected_request r.state).pending_counts_by_channel
        r.known_pending_request_channels
        r.requests_by_id
        (ensure_selected_request r.state).requests
ensure_selected_request-Tracked r h =
    rw
      (
        ensure_selected_request-pending_counts_by_channel r.state,
        ensure_selected_request-requests r.state,
      )
      h

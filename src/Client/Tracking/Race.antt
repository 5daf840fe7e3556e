-- ===== src/Client/Tracking/Race.antt =====
-- An update that arrives while a snapshot is fetched, in client/nod-client-core/src/state.rs.
use nod.Base.{
  all, Option-cases, ℕ, ◌+◌, ◌≤◌, ◌≡◌, refl, sym, ◌∙◌, inl, inr, String, Bool, true, false, not,
  Option, none, some, List, [], ◌∷◌, ◌==◌, if◌then◌else◌, Bool-cases, arith, eq_iff, eq_refl,
  lookup, put, UniqueKeys, lookup-contains_key, lookup-put,
}
use nod.Proto.Request.{Request}
use nod.Client.Model.{ServerProfile, User, UserDevice, Channel}
use nod.Client.State.{StateReducer, update_visible_requests, select_channel}
use nod.Client.Servers.{upsert_server}
use nod.Client.Snapshot.{later_than, apply_snapshot, survives, keep_later, by_id, is_older}
use nod.Client.Updates.{
  upsert_channel, channel_synced, apply_sync_envelope, apply_request_update,
  update_pending_tracking, previous_pending_channel, is_stale_update,
}
use nod.Client.Tracking.Updates.{tracked_lem, apply_request_update-Tracked}
use nod.Client.Tracking.Calls.{
  ClientCall, refreshed, announced, updated, channel_changed, channel_selected, server_stored,
  server_removed, server_selected, cleared, run_call, run_calls, run_calls-Tracked, started_with,
  started_with-Tracked,
}

-- What stays for an id: what is held, if it survives, or what was fetched.
abbrev chosen :
    ℕ → List (String × ℕ) → List (String × Request) → String → Option Request → Option Request
chosen started revisions snapshot id none = lookup id snapshot
chosen started revisions snapshot id (some q) =
    if survives started revisions snapshot id q then some q else lookup id snapshot

survives-lookup :
    (started : ℕ) (revisions : List (String × ℕ)) (before after : List (String × Request))
    (id : String) (o : Option Request)
    → lookup id after ≡ lookup id before
    → chosen started revisions after id o ≡ chosen started revisions before id o
unfolding survives
survives-lookup started revisions before after id none e = e
survives-lookup started revisions before after id (some q) e = rw e refl

lookup-keep_later :
    (started : ℕ) (revisions : List (String × ℕ)) (held snapshot : List (String × Request))
    (id : String)
    → UniqueKeys held
    → lookup id (keep_later started revisions held snapshot)
      ≡ chosen started revisions snapshot id (lookup id held)
unfolding keep_later
lookup-keep_later started revisions [] snapshot id u = refl
lookup-keep_later started revisions ((j, q) ∷ rest) snapshot id u =
    lookup-keep_later started revisions rest _ id u.1 ∙ (elim (Bool-cases (j == id)) [
      | inl m ↦
          rw (m, sym ((eq_iff j id).0 m), lookup-contains_key j rest u.0)
            (kept j (survives started revisions snapshot j q))
      | inr m ↦ rw m (
          survives-lookup started revisions snapshot _ id (lookup id rest)
            (other (survives started revisions snapshot j q) m))
    ])
  where
    kept :
        (i : String) (b : Bool)
        → lookup i (if b then put i q snapshot else snapshot)
          ≡ (if b then some q else lookup i snapshot)
    kept i true = lookup-put i i q snapshot ∙ rw (eq_refl i) refl
    kept i false = refl

    other :
        (b : Bool)
        → (j == id) ≡ false
        → lookup id (if b then put j q snapshot else snapshot) ≡ lookup id snapshot
    other true m = lookup-put id j q snapshot ∙ rw m refl
    other false m = refl

-- The request is held, and by an update after the start of the fetch.
abbrev IsUpdated : Request → ℕ → StateReducer → Type 0
IsUpdated q started r =
    (lookup q.id r.requests_by_id ≡ some q)
    × (later_than started (lookup q.id r.request_revisions) ≡ true)

abbrev is_other : String → Option Request → Bool
is_other id none = true
is_other id (some p) = not (p.id == id)

-- The calls between: updates of other requests, by themselves or in an envelope, and changes of the
-- channels and of the servers that do not reset the reducer.
abbrev pub leaves : String → ClientCall → Bool
leaves id (updated p) = not (p.id == id)
leaves id (announced envelope) = is_other id envelope.payload.request
leaves id (channel_changed channel) = true
leaves id (channel_selected channel_id) = true
leaves id (server_stored server) = true
leaves id _ = false

apply_request_update-IsUpdated :
    (q p : Request) (started : ℕ) (r : StateReducer)
    → not (p.id == q.id) ≡ true
    → IsUpdated q started r
    → IsUpdated q started (apply_request_update p r).1
unfolding apply_request_update update_pending_tracking update_visible_requests
apply_request_update-IsUpdated q p started r other h =
    let apart : (p.id == q.id) ≡ false = ground (arith, other) in
    elim (Bool-cases (is_stale_update p r)) [
      | inl e ↦ rw e h
      | inr e ↦
          rw
            (
              e,
              tracked_lem p (previous_pending_channel r p) r,
              lookup-put q.id p.id p r.requests_by_id,
              lookup-put q.id p.id (r.revision + 1) r.request_revisions,
              apart,
            )
            h
    ]

channel_synced-IsUpdated :
    (q : Request) (started : ℕ) (c : Option Channel) (r : StateReducer)
    → IsUpdated q started r
    → IsUpdated q started
        (channel_synced c (record r { state = record r.state { is_sync_connected = true } }))
unfolding upsert_channel
channel_synced-IsUpdated q started none r h = h
channel_synced-IsUpdated q started (some c) r h = h

run_call-IsUpdated :
    (q : Request) (started : ℕ) (c : ClientCall) (r : StateReducer)
    → leaves q.id c ≡ true
    → IsUpdated q started r
    → IsUpdated q started (run_call c r)
unfolding upsert_channel select_channel upsert_server apply_sync_envelope update_visible_requests
run_call-IsUpdated q started (updated p) r l h = apply_request_update-IsUpdated q p started r l h
run_call-IsUpdated q started (announced e) r l h = elim (Option-cases e.payload.request) [
  | inl n ↦ rw n (channel_synced-IsUpdated q started e.payload.channel r h)
  | inr (p, s) ↦ rw s (
      apply_request_update-IsUpdated q p started _ (rw s at l)
        (channel_synced-IsUpdated q started e.payload.channel r h))
]
run_call-IsUpdated q started (channel_changed c) r l h = h
run_call-IsUpdated q started (channel_selected c) r l h = h
run_call-IsUpdated q started (server_stored s) r l h = h
run_call-IsUpdated q started (refreshed user devices channels requests at synced_at show_time) r l
      h =
    absurd (cc l)
run_call-IsUpdated q started (server_removed s) r l h = absurd (cc l)
run_call-IsUpdated q started (server_selected s) r l h = absurd (cc l)
run_call-IsUpdated q started cleared r l h = absurd (cc l)

run_calls-IsUpdated :
    (q : Request) (started : ℕ) (cs : List ClientCall) (r : StateReducer)
    → all (leaves q.id) cs ≡ true
    → IsUpdated q started r
    → IsUpdated q started (run_calls cs r)
run_calls-IsUpdated q started [] r l h = h
run_calls-IsUpdated q started (c ∷ cs) r l h =
    run_calls-IsUpdated q started cs (run_call c r) (ground (arith, l))
      (run_call-IsUpdated q started c r (ground (arith, l)) h)

arrival-IsUpdated :
    (q : Request) (started : ℕ) (r : StateReducer)
    → is_stale_update q r ≡ false
    → started ≤ r.revision
    → IsUpdated q started (apply_request_update q r).1
unfolding apply_request_update update_pending_tracking update_visible_requests
arrival-IsUpdated q started r fresh le =
    rw
      (
        fresh,
        tracked_lem q (previous_pending_channel r q) r,
        lookup-put q.id q.id q r.requests_by_id,
        lookup-put q.id q.id (r.revision + 1) r.request_revisions,
        eq_refl q.id,
      )
      (refl, ground (arith, le))

chosen-update :
    (q : Request) (started : ℕ) (revisions : List (String × ℕ))
    (held snapshot : List (String × Request))
    → lookup q.id held ≡ some q
    → later_than started (lookup q.id revisions) ≡ true
    → chosen started revisions snapshot q.id (lookup q.id held)
      ≡ (if is_older q (lookup q.id snapshot) then lookup q.id snapshot else some q)
unfolding survives
chosen-update q started revisions held snapshot e later =
    elim (Bool-cases (is_older q (lookup q.id snapshot))) [
      | inl o ↦ rw (e, later, o) refl
      | inr o ↦ rw (e, later, o) refl
    ]

-- An update is not lost to a snapshot whose fetch began before it. After any history, let an update
-- that is not stale arrive after the start of the fetch, and after it any calls that update other
-- requests, alone or in an envelope, or change channels or servers without a reset of the reducer. Then
-- the snapshot leaves the updated request in place, unless it has the same request in a later
-- state, which is then taken.
pub update_outlives_snapshot :
    (servers : List ServerProfile) (selected_server_id : Option String)
    (notification_sound : String) (calls : List ClientCall) (q : Request)
    (between : List ClientCall) (user : Option User) (devices : List UserDevice)
    (channels : List Channel) (requests : List Request) (started synced_at : ℕ)
    (show_time : ℕ → String)
    → let r = started_with servers selected_server_id notification_sound calls in
      is_stale_update q r ≡ false
      → started ≤ r.revision
      → all (leaves q.id) between ≡ true
      → lookup q.id
          (apply_snapshot user devices channels requests started synced_at show_time
            (run_calls between (apply_request_update q r).1)).1.requests_by_id
        ≡ (if is_older q (lookup q.id (by_id [] requests))
            then lookup q.id (by_id [] requests)
            else some q)
unfolding apply_snapshot update_visible_requests
update_outlives_snapshot servers selected_server_id notification_sound calls q between user devices
      channels requests started synced_at show_time fresh le others =
    let r = started_with servers selected_server_id notification_sound calls in
    let arrived = (apply_request_update q r).1 in
    let last = run_calls between arrived in
    let h =
      run_calls-IsUpdated q started between arrived others
        (arrival-IsUpdated q started r fresh le) in
    let t = run_calls-Tracked between arrived (
      apply_request_update-Tracked q r
        (started_with-Tracked servers selected_server_id notification_sound calls)) in
    lookup-keep_later started last.request_revisions last.requests_by_id (by_id [] requests) q.id
      t.keyed.0
    ∙ chosen-update q started last.request_revisions last.requests_by_id (by_id [] requests) h.0 h.1

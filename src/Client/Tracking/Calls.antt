-- ===== src/Client/Tracking/Calls.antt =====
-- The histories of the reducer of client/nod-client-core/src/state.rs: the calls that change its maps, in
-- any order.
use nod.Base.{
  Option-cases, ℕ, ◌≡◌, true, refl, sym, ap, ◌∙◌, inl, inr, String, Bool, not, ◌&&◌, Option, none,
  some, List, [], ◌∷◌, ◌==◌, if◌then◌else◌, Bool-cases, All, lookup, contains_key, values,
  count_values, is_none, select,
}
use nod.Proto.Request.{Request, is_pending}
use nod.Client.Model.{ServerProfile, User, UserDevice, Channel, SyncEnvelope}
use nod.Client.Pending.{pending_requests}
use nod.Client.State.{
  StateReducer, new_reducer, clear_loaded_data, select_channel, update_visible_requests,
}
use nod.Client.Servers.{upsert_server, remove_server, set_selected_server, is_text}
use nod.Client.Snapshot.{apply_snapshot, keep_later, by_id, notification_candidates_after_refresh}
use nod.Client.Updates.{
  apply_request_update, update_pending_tracking, previous_pending_channel, tracked, is_stale_update,
  upsert_channel, channel_synced, apply_sync_envelope,
}
use nod.Client.Counting.{count_at, waits_in, pending_channel}
use nod.Client.Tracking.{Consistent, Tracked, update_visible_requests-Tracked}
use nod.Client.Tracking.Updates.{
  apply_request_update-Tracked, apply_sync_envelope-Tracked, channel_synced-Tracked,
  previous_pending_channel_lem,
}
use nod.Client.Tracking.Snapshot.{apply_snapshot-Tracked}

pub data ClientCall : Type 0 where
  refreshed :
      Option User
      → List UserDevice
      → List Channel
      → List Request
      → (started synced_at : ℕ) → (show_time : ℕ → String) → ClientCall
  announced : SyncEnvelope → ClientCall
  updated : Request → ClientCall
  channel_changed : Channel → ClientCall
  channel_selected : Option String → ClientCall
  server_stored : ServerProfile → ClientCall
  server_removed : String → ClientCall
  server_selected : String → ClientCall
  cleared : ClientCall

abbrev pub run_call : ClientCall → StateReducer → StateReducer
run_call (refreshed user devices channels requests started synced_at show_time) r =
    (apply_snapshot user devices channels requests started synced_at show_time r).1
run_call (announced envelope) r = (apply_sync_envelope envelope r).1
run_call (updated request) r = (apply_request_update request r).1
run_call (channel_changed channel) r = upsert_channel channel r
run_call (channel_selected channel_id) r = select_channel channel_id r
run_call (server_stored server) r = upsert_server server r
run_call (server_removed server_id) r = remove_server server_id r
run_call (server_selected server_id) r = set_selected_server server_id r
run_call cleared r = clear_loaded_data r

abbrev pub run_calls : List ClientCall → StateReducer → StateReducer
run_calls [] r = r
run_calls (c ∷ cs) r = run_calls cs (run_call c r)

empty-Consistent : Consistent [] [] [] []
empty-Consistent = record {
  unique = tt;
  counted = λ c. refl;
  known_channel = λ id. refl;
  keyed = (tt, tt);
  shown_is_held = tt;
}

run_call-Tracked : (c : ClientCall) (r : StateReducer) → Tracked r → Tracked (run_call c r)
unfolding upsert_channel select_channel upsert_server remove_server set_selected_server
    clear_loaded_data
run_call-Tracked (refreshed user devices channels requests started synced_at show_time) r h =
    apply_snapshot-Tracked user devices channels requests started synced_at show_time r h
run_call-Tracked (announced e) r h = apply_sync_envelope-Tracked e r h
run_call-Tracked (updated q) r h = apply_request_update-Tracked q r h
run_call-Tracked (channel_changed c) r h = h
run_call-Tracked (channel_selected c) r h =
    update_visible_requests-Tracked
      (record r { state = record r.state { selected_channel_id = c } }) r.state.requests h
run_call-Tracked (server_stored s) r h = h
run_call-Tracked (server_removed s) r h = elim (Bool-cases (is_text r.state.selected_server_id s)) [
  | inl e ↦ rw e empty-Consistent
  | inr e ↦ rw e h
]
run_call-Tracked (server_selected s) r h = empty-Consistent
run_call-Tracked cleared r h = empty-Consistent

pub run_calls-Tracked :
    (cs : List ClientCall) (r : StateReducer) → Tracked r → Tracked (run_calls cs r)
run_calls-Tracked [] r h = h
run_calls-Tracked (c ∷ cs) r h = run_calls-Tracked cs (run_call c r) (run_call-Tracked c r h)

abbrev pub started_with :
    List ServerProfile → Option String → String → List ClientCall → StateReducer
started_with servers selected_server_id notification_sound calls =
    run_calls calls (new_reducer servers selected_server_id notification_sound)

pub started_with-Tracked :
    (servers : List ServerProfile) (selected_server_id : Option String)
    (notification_sound : String) (calls : List ClientCall)
    → Tracked (started_with servers selected_server_id notification_sound calls)
unfolding new_reducer
started_with-Tracked servers selected_server_id notification_sound calls =
    run_calls-Tracked calls (new_reducer servers selected_server_id notification_sound)
      empty-Consistent

-- The number of pending requests shown for a channel is right at all times: however snapshots, announced
-- updates, changes of channels and of servers follow one another after the start, the count of each
-- channel is the number of held requests that wait in it, the channel known for an id is the one in
-- which the request of this id waits, if it does, and every request in the shown list is held.
pub counts_follow_requests :
    (servers : List ServerProfile) (selected_server_id : Option String)
    (notification_sound : String) (calls : List ClientCall)
    → let r = started_with servers selected_server_id notification_sound calls in
      ((c : String)
        → count_at c r.state.pending_counts_by_channel ≡ count_values (waits_in c) r.requests_by_id)
      × ((id : String)
          → lookup id r.known_pending_request_channels
            ≡ pending_channel (lookup id r.requests_by_id))
      × All (λ q. lookup q.id r.requests_by_id ≡ some q) r.state.requests
counts_follow_requests servers selected_server_id notification_sound calls =
    let h = started_with-Tracked servers selected_server_id notification_sound calls in
    (h.counted, h.known_channel, h.shown_is_held)

-- Whether a request becomes pending by an update.
abbrev pub becomes_pending : Request → StateReducer → Bool
becomes_pending q r =
    is_pending q.status && is_none (pending_channel (lookup q.id r.requests_by_id))

tracked-announces :
    (q : Request) (previous : Option String) (r : StateReducer)
    → (tracked q previous r).0 ≡ (is_pending q.status && is_none previous)
tracked-announces q none r = elim (Bool-cases (is_pending q.status)) [
  | inl e ↦ rw e refl
  | inr e ↦ rw e refl
]
tracked-announces q (some c) r = elim (Bool-cases (is_pending q.status)) [
  | inl e ↦ rw e refl
  | inr e ↦ rw e refl
]

contains_key-known :
    (id : String) (known : List (String × String)) (o : Option String)
    → lookup id known ≡ o
    → not (contains_key id known) ≡ is_none o
contains_key-known id [] o e = rw (sym e) refl
contains_key-known id ((j, c) ∷ known) o e = elim (Bool-cases (j == id)) [
  | inl m ↦ rw (m, sym (rw m at e)) refl
  | inr m ↦ rw m (contains_key-known id known o (rw m at e))
]

select_new :
    (r : StateReducer) (rs : List Request)
    → Tracked r
    → select (λ q. not (contains_key q.id r.known_pending_request_channels)) (pending_requests rs)
      ≡ select (λ q. becomes_pending q r) rs
select_new r [] h = refl
select_new r (q ∷ rs) h = elim (Bool-cases (is_pending q.status)) [
  | inl e ↦
      rw
        (
          e,
          select_new r rs h,
          contains_key-known q.id r.known_pending_request_channels _ (h.known_channel q.id),
        )
        refl
  | inr e ↦ rw e (select_new r rs h)
]

-- What an envelope from the server is to tell the user of: its request, if the server has just created
-- it and it is not stale and becomes pending.
abbrev pub news_of : SyncEnvelope → StateReducer → List Request
news_of envelope r = elim envelope.payload.request [
  | none ↦ []
  | some q ↦
      if (envelope.kind == "created") && (not (is_stale_update q r) && becomes_pending q r)
      then q ∷ []
      else []
]

apply_request_update_lem :
    (q : Request) (r : StateReducer)
    → Tracked r
    → (apply_request_update q r).0 ≡ (not (is_stale_update q r) && becomes_pending q r)
unfolding apply_request_update update_pending_tracking
apply_request_update_lem q r h = elim (Bool-cases (is_stale_update q r)) [
  | inl e ↦ rw e refl
  | inr e ↦ rw e (
      tracked-announces q (previous_pending_channel r q) r
      ∙ ap (λ o. is_pending q.status && is_none o) (sym (previous_pending_channel_lem r q h)))
]

abbrev connected : StateReducer → StateReducer
connected r = record r { state = record r.state { is_sync_connected = true } }

synced_alike :
    (q : Request) (channel : Option Channel) (r : StateReducer)
    → (not (is_stale_update q (channel_synced channel (connected r)))
        && becomes_pending q (channel_synced channel (connected r)))
      ≡ (not (is_stale_update q r) && becomes_pending q r)
unfolding is_stale_update upsert_channel
synced_alike q none r = refl
synced_alike q (some channel) r = refl

apply_sync_envelope_lem :
    (envelope : SyncEnvelope) (r : StateReducer)
    → Tracked r
    → (apply_sync_envelope envelope r).0 ≡ news_of envelope r
unfolding apply_sync_envelope
apply_sync_envelope_lem envelope r h = elim (Option-cases envelope.payload.request) [
  | inl n ↦ rw n refl
  | inr (q, s) ↦
      rw
        (
          s,
          apply_request_update_lem q (channel_synced envelope.payload.channel (connected r))
              (channel_synced-Tracked envelope.payload.channel r h),
          synced_alike q envelope.payload.channel r,
        )
        refl
]

-- The user is told of the requests that are new to them, and of no others, at all times. An envelope
-- of the sync gives its request exactly if it is one of kind "created", is not stale, and brings a pending
-- request that was not held as pending before. The flag of an update says that it is not stale and
-- brings such a request. A snapshot gives the pending requests held after it that were not
-- held as pending before, and none if it is the first after a start or a change of the server.
pub news_are_new :
    (servers : List ServerProfile) (selected_server_id : Option String)
    (notification_sound : String) (calls : List ClientCall) (envelope : SyncEnvelope)
    (request : Request) (user : Option User) (devices : List UserDevice) (channels : List Channel)
    (requests : List Request) (started synced_at : ℕ) (show_time : ℕ → String)
    → let r = started_with servers selected_server_id notification_sound calls in
      let next = apply_snapshot user devices channels requests started synced_at show_time r in
      ((apply_sync_envelope envelope r).0 ≡ news_of envelope r)
      × ((apply_request_update request r).0
          ≡ (not (is_stale_update request r) && becomes_pending request r))
      × (next.0 ≡ (
          if r.has_loaded_pending_snapshot
          then select (λ q. becomes_pending q r) (values next.1.requests_by_id)
          else []))
unfolding apply_snapshot notification_candidates_after_refresh update_visible_requests
news_are_new servers selected_server_id notification_sound calls envelope request user devices
      channels requests started synced_at show_time =
    let r = started_with servers selected_server_id notification_sound calls in
    let h = started_with-Tracked servers selected_server_id notification_sound calls in
    (
      apply_sync_envelope_lem envelope r h,
      apply_request_update_lem request r h,
      ap (λ rs. if r.has_loaded_pending_snapshot then rs else [])
          (select_new r
            (values (keep_later started r.request_revisions r.requests_by_id (by_id [] requests)))
            h),
    )

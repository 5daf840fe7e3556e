-- ===== src/Client/Updates.antt =====
-- client/nod-client-core/src/state.rs: a request or a channel that the server announced.
use nod.Base.{
  ℕ, ◌+◌, String, Bool, true, false, ◌&&◌, Option, none, some, List, [], ◌∷◌, ◌==◌, find,
  if◌then◌else◌, lookup, put, remove,
}
use nod.Proto.Request.{Request, is_pending}
use nod.Client.Model.{Channel, SyncEnvelope}
use nod.Client.Pending.{request_is_stale, increment_pending_count, decrement_pending_count}
use nod.Client.State.{StateReducer, update_visible_requests}

abbrev pub or_first : Option String → Option String → Option String
or_first none b = b
or_first (some a) b = some a

abbrev pub channel_of : Option Request → Option String
channel_of none = none
channel_of (some r) = some r.channel_id

unfoldable pub previous_pending_channel : StateReducer → Request → Option String
previous_pending_channel r request =
    or_first (lookup request.id r.known_pending_request_channels)
      (channel_of (find (λ e. (e.id == request.id) && is_pending e.status) r.state.requests))

abbrev with_pending : StateReducer → List (String × ℕ) → List (String × String) → StateReducer
with_pending r counts known = record r {
  state = record r.state { pending_counts_by_channel = counts };
  known_pending_request_channels = known;
}

unfoldable pub mark_pending : Request → StateReducer → StateReducer
mark_pending request r =
    with_pending r (increment_pending_count r.state.pending_counts_by_channel request.channel_id)
      (put request.id request.channel_id r.known_pending_request_channels)

unfoldable pub clear_pending : String → String → StateReducer → StateReducer
clear_pending request_id channel_id r =
    with_pending r (decrement_pending_count r.state.pending_counts_by_channel channel_id)
      (remove request_id r.known_pending_request_channels)

unfoldable pub update_pending_channel : String → Request → StateReducer → StateReducer
update_pending_channel previous request r =
    with_pending r
      (if previous == request.channel_id
        then r.state.pending_counts_by_channel
        else increment_pending_count
            (decrement_pending_count r.state.pending_counts_by_channel previous) request.channel_id)
      (put request.id request.channel_id r.known_pending_request_channels)

abbrev pub tracked : Request → Option String → StateReducer → Bool × StateReducer
tracked request none r =
    if is_pending request.status then (true, mark_pending request r) else (false, r)
tracked request (some previous) r =
    if is_pending request.status
    then (false, update_pending_channel previous request r)
    else (false, clear_pending request.id previous r)

unfoldable pub update_pending_tracking : Request → StateReducer → Bool × StateReducer
update_pending_tracking request r = tracked request (previous_pending_channel r request) r

unfoldable pub is_stale_update : Request → StateReducer → Bool
is_stale_update request r = elim (lookup request.id r.requests_by_id) [
  | none ↦ false
  | some held ↦ request_is_stale request held
]

unfoldable pub apply_request_update : Request → StateReducer → Bool × StateReducer
apply_request_update request r =
    if is_stale_update request r
    then (false, r)
    else let noted = update_pending_tracking request r in
      (
        noted.0,
        update_visible_requests (record noted.1 {
          revision = noted.1.revision + 1;
          request_revisions = put request.id (noted.1.revision + 1) noted.1.request_revisions;
          requests_by_id = put request.id request noted.1.requests_by_id;
        }),
      )

abbrev put_channel : Channel → List Channel → List Channel
put_channel channel [] = channel ∷ []
put_channel channel (c ∷ cs) =
    if c.id == channel.id then channel ∷ cs else c ∷ put_channel channel cs

unfoldable pub upsert_channel : Channel → StateReducer → StateReducer
upsert_channel channel r = record r {
  state = record r.state { channels = put_channel channel r.state.channels };
}

abbrev pub channel_synced : Option Channel → StateReducer → StateReducer
channel_synced none r = r
channel_synced (some channel) r = upsert_channel channel r

unfoldable pub apply_sync_envelope : SyncEnvelope → StateReducer → List Request × StateReducer
apply_sync_envelope envelope r =
    let connected = record r { state = record r.state { is_sync_connected = true } } in
    let synced = channel_synced envelope.payload.channel connected in
    elim envelope.payload.request [
      | none ↦ ([], synced)
      | some request ↦
          let updated = apply_request_update request synced in
          (if (envelope.kind == "created") && updated.0 then request ∷ [] else [], updated.1)
    ]

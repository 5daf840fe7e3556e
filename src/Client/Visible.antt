-- ===== src/Client/Visible.antt =====
-- client/nod-client-core/src/state.rs: the order and the limit of the requests that are shown.
pub mod Split
use nod.Base.{
  ℕ, zero, suc, ◌+◌, ◌-◌, String, Bool, true, false, not, ◌&&◌, ◌||◌, Option, none, some, List, [],
  ◌∷◌, ◌++◌, ◌==◌, map, ltb, leb, eqb, any, find, select, update, is_empty, is_some, is_none,
  sort_by, text_lt, if◌then◌else◌, lookup, contains_key, put, remove, values, entry_or,
}
use nod.Proto.Request.{Request, RequestStatus, is_pending}
use nod.Client.Model.{
  Channel, ServerProfile, User, UserDevice, NotificationDeliveryMode, websocket, SyncPayload,
  SyncEnvelope, SyncPhase, offline, current, revoked, ClientState,
}

abbrev pub request_status_rank : RequestStatus → ℕ
request_status_rank status = if is_pending status then 0 else 1

-- The comparison of `visible_requests`: pending first, then the newest, then the greatest id.
abbrev pub shown_before : Request → Request → Bool
shown_before a b =
    ltb (request_status_rank a.status) (request_status_rank b.status)
    || eqb (request_status_rank a.status) (request_status_rank b.status)
      && (ltb b.created_at a.created_at || eqb b.created_at a.created_at && text_lt b.id a.id)

abbrev pub handled_limit : ℕ
handled_limit = 500

-- `left` handled requests may still be shown.
abbrev pub limit_handled : ℕ → List Request → List Request
limit_handled left [] = []
limit_handled zero (r ∷ rs) =
    if is_pending r.status then r ∷ limit_handled zero rs else limit_handled zero rs
limit_handled (suc left) (r ∷ rs) =
    if is_pending r.status then r ∷ limit_handled (suc left) rs else r ∷ limit_handled left rs

unfoldable pub visible_requests : List Request → List Request
visible_requests requests = limit_handled handled_limit (sort_by shown_before requests)

unfoldable pub visible_requests_for_selected_channel : Option String → List Request → List Request
visible_requests_for_selected_channel none requests = visible_requests requests
visible_requests_for_selected_channel (some channel_id) requests =
    visible_requests (select (λ r. r.channel_id == channel_id) requests)

-- ===== src/Lifecycle.antt =====
-- server/nod-server/crates/nod-server/src/db/lifecycle.rs: an origin's validation, and the journal
-- entry that every change of a request appends in its own transaction (with the callback it owes).
pub mod Inversion
use Prim.Native.String.{◌++◌ as str_append}
use nod.Base.{
  ℕ, ◌+◌, String, Bool, true, false, not, ◌&&◌, ◌||◌, Option, none, some, List, ◌==◌, eqb, ltb, leb,
  find, update, length, is_some, is_blank, if◌then◌else◌, byte_len, starts_with_char, some_char,
  is_control, Result, ok, err, bad_request, internal, refuse_if, ok_or, ◌>>=◌,
}
use text.Mathlib.Text.{starts_with}
use nod.Proto.Request.{Decision}
use nod.Env.{Origin}
use nod.Store.{
  Db, RequestRow, OriginRow, EventRow, CallbackRow, CallbackPayload, queued, insert_row,
}
use nod.Model.{DecisionRequest}

-- The closure `valid` of `Origin::validate`.
abbrev valid_text : String → ℕ → Bool
valid_text s most = not (is_blank s) && leb (byte_len s) most && not (some_char is_control s)

abbrev valid_reference : Option String → Bool
valid_reference none = true
valid_reference (some s) = valid_text s 512

unfoldable pub validate_origin : Origin → Result (Unit {0})
unfolding is_control
validate_origin o =
    refuse_if
      (not (valid_text o.session 256)
        || not (starts_with o.session "ses_")
        || leb (byte_len o.session) 4
        || not (valid_text o.directory 4096)
        || not (starts_with_char b'/' o.directory)
        || not (valid_reference o.reference))
      (bad_request "invalid integration origin")

abbrev origin_in : Option OriginRow → Option Origin
origin_in none = none
origin_in (some row) = some row.origin

unfoldable pub origin_on : Db → String → Option Origin
origin_on db id = origin_in (find (λ r. r.request_id == id) db.origins)

-- `CallbackPayload::from_request`.
unfoldable pub payload_of : DecisionRequest → CallbackPayload
payload_of request = record {
  request_id = request.id;
  channel_id = request.channel_id;
  status = request.status;
  decision = request.decision;
  decisions = request.user_decisions;
  decision_resolution = request.decision_resolution;
}

-- `UPDATE requests SET revision=revision+1 WHERE id=?`.
abbrev pub bump_revision : String → List RequestRow → List RequestRow
bump_revision id = update (λ r. r.id == id) (λ r. record r { revision = r.revision + 1 })

abbrev pub event_row :
    Db → ℕ → String → DecisionRequest → String → Option Decision → ℕ → Option String → EventRow
event_row db now event_id request kind decision revision creator = record {
  seq = length db.events + 1;
  event_id = event_id;
  request_id = request.id;
  channel_id = request.channel_id;
  revision = revision;
  kind = kind;
  occurred_at = now;
  aggregate_status = request.status;
  creator = creator;
  origin = origin_on db request.id;
  decision = decision;
  published_at = none;
  stream_seq = none;
  attempts = 0;
  next_attempt_at = now;
  lease_token = none;
  lease_until = none;
  last_error = none;
}

abbrev pub callback_row : ℕ → String → DecisionRequest → ℕ → String → CallbackRow
callback_row now event_id request revision url = record {
  delivery_id = str_append event_id ":callback";
  event_id = event_id;
  request_id = request.id;
  request_revision = revision;
  url = url;
  payload = payload_of request;
  state = queued;
  attempts = 0;
  next_attempt_at = now;
  lease_token = none;
  lease_until = none;
  delivered_at = none;
  last_status = none;
  last_error = none;
  updated_at = now;
}

-- A callback is owed for a decision on a request that named a URL.
unfoldable pub owed_callback :
    ℕ
    → String
    → DecisionRequest
    → Option Decision
    → ℕ
    → Option String
    → List CallbackRow
    → Result (List CallbackRow)
owed_callback now event_id request (some decision) revision (some url) callbacks =
    let row = callback_row now event_id request revision url in
    insert_row (λ r. (r.delivery_id == row.delivery_id) || (r.event_id == event_id)) row callbacks
owed_callback now event_id request _ revision _ callbacks = ok callbacks

unfoldable pub append_lifecycle_on :
    Db → ℕ → String → DecisionRequest → String → Option Decision → Result Db
append_lifecycle_on db now event_id request kind decision = do
  row ← ok_or (find (λ r. r.id == request.id) db.requests) (internal "database error")
  let revision = row.revision + 1
  events ←
      insert_row
        (λ e. (e.event_id == event_id) || (e.request_id == request.id) && eqb e.revision revision)
        (event_row db now event_id request kind decision revision row.created_by_issuer_token_id)
        db.events
  callbacks ← owed_callback now event_id request decision revision request.callback_url db.callbacks
  ok (record db {
    requests = bump_revision request.id db.requests;
    events = events;
    callbacks = callbacks;
  })

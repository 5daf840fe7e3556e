-- ===== src/Requests/Read.antt =====
-- server/nod-server/crates/nod-server/src/db/requests/rows.rs and read.rs: a request put together
-- from its rows, and the part of it that one user may see.
pub mod Privacy
pub mod Digest
use nod.Base.{
  String, Bool, true, false, ◌&&◌, ◌||◌, Option, none, some, List, [], map, sort_by, text_lt, ◌==◌,
  ltb, eqb, any, find, select, length, if◌then◌else◌, Result, ok, not_found, internal, ◌>>=◌, ok_or,
  map_err, Checked,
}
use nod.Proto.Request.{UserDecision, RequestOption, pending, resolved, is_shared}
use nod.Env.{Env}
use nod.Store.{Db, RequestRow, UserDecisionRow}
use nod.Model.{DecisionRequest, to_wire}

-- `ORDER BY resolved_at,user_id`; SQLite compares texts by their bytes.
before : UserDecisionRow → UserDecisionRow → Bool
before a b =
    ltb a.resolved_at b.resolved_at
    || eqb a.resolved_at b.resolved_at && text_lt a.user_id b.user_id

unfoldable pub recipients_of : Db → String → List String
recipients_of db id = map (λ r. r.user_id) (select (λ r. r.request_id == id) db.recipients)

unfoldable pub decisions_of : Db → String → List UserDecision
unfolding before
decisions_of db id =
    map (λ r. record { user_id = r.user_id; decision = r.decision })
      (sort_by before (select (λ r. r.request_id == id) db.user_decisions))

unfoldable pub options_of : Db → String → List RequestOption
options_of db id = map (λ r. r.option) (select (λ r. r.request_id == id) db.options)

-- The record that `request_from_rows` builds before it signs it.
unfoldable pub unsigned_request :
    RequestRow → List String → List UserDecision → List RequestOption → DecisionRequest
unsigned_request row recipients decisions options = record {
  answer_field = row.answer_field;
  id = row.id;
  channel_id = row.channel_id;
  recipients = recipients;
  decision_resolution = row.decision_resolution;
  title = row.title;
  summary = row.summary;
  body_markdown = row.body_markdown;
  fields = row.fields;
  links = row.links;
  image_url = row.image_url;
  notification = row.notification;
  dedupe_key = row.dedupe_key;
  expires_at = row.expires_at;
  status = row.status;
  created_at = row.created_at;
  updated_at = row.updated_at;
  resolved_at = row.resolved_at;
  decision = row.decision;
  user_decisions = decisions;
  callback_url = row.callback_url;
  options = options;
  private_recipients = false;
  signing = none;
}

unfoldable pub digest_of : Env → DecisionRequest → String → String × Checked String
unfolding to_wire
digest_of env request commitment = elim request.answer_field [
  | some field ↦ ("nod-request-v2", env.value_request_digest (to_wire env request) commitment field)
  | none ↦ ("nod-request-v1", env.request_digest_v1 (to_wire env request) commitment)
]

unfoldable pub request_from_rows :
    Env → RequestRow → List String → List UserDecision → List RequestOption → Result DecisionRequest
unfolding unsigned_request digest_of
request_from_rows env row recipients decisions options = do
  commitment ← map_err internal (env.recipients_commitment recipients row.recipient_salt)
  let request = unsigned_request row recipients decisions options
  digest ← map_err internal (digest_of env request commitment).1
  ok (record request {
    signing = some (record {
      version = (digest_of env request commitment).0;
      recipients_commitment = commitment;
      request_digest = digest;
    });
  })

unfoldable pub row_to_request : Env → Db → RequestRow → Result DecisionRequest
row_to_request env db row =
    request_from_rows env row (recipients_of db row.id) (decisions_of db row.id)
      (options_of db row.id)

unfoldable pub get_request_on : Env → Db → String → Result DecisionRequest
get_request_on env db request_id = do
  row ← ok_or (find (λ r. r.id == request_id) db.requests) not_found
  row_to_request env db row

abbrev pub seen_by : DecisionRequest → Option UserDecision → DecisionRequest
seen_by r (some d) = record r {
  status = resolved;
  resolved_at = some d.decision.resolved_at;
  decision = some d.decision;
}
seen_by r none = elim r.status [
  | resolved ↦ record r { status = pending; resolved_at = none; decision = none }
  | _ ↦ r
]

unfoldable pub project_request_for_user : DecisionRequest → String → DecisionRequest
project_request_for_user request user_id =
    let opened = record request { private_recipients = ltb 1 (length request.recipients) } in
    let own =
      if is_shared request.decision_resolution
      then opened
      else seen_by opened (find (λ d. d.user_id == user_id) request.user_decisions) in
    record own {
      recipients = select (λ r. r == user_id) own.recipients;
      user_decisions = select (λ d. d.user_id == user_id) own.user_decisions;
    }

unfoldable pub request_for_user : Env → Db → String → String → Result DecisionRequest
request_for_user env db request_id user_id = do
  request ← get_request_on env db request_id
  ok (project_request_for_user request user_id)

unfoldable pub request_visible_to_user : Db → String → String → Bool
request_visible_to_user db request_id user_id =
    any (λ r. (r.request_id == request_id) && (r.user_id == user_id)) db.recipients

unfoldable pub request_created_by_issuer_token_id : Db → String → Result (Option String)
request_created_by_issuer_token_id db request_id = do
  row ← ok_or (find (λ r. r.id == request_id) db.requests) not_found
  ok row.created_by_issuer_token_id

unfoldable pub request_delivery_eligible : Db → String → String → Bool
request_delivery_eligible db request_id user_id =
    any
      (λ e.
        (e.id == request_id)
        && any (λ r. (r.request_id == e.id) && (r.user_id == user_id)) db.recipients
        && (e.explicit_recipients
            || any (λ s. (s.channel_id == e.channel_id) && (s.user_id == user_id) && s.subscribed)
                db.subscriptions))
      db.requests

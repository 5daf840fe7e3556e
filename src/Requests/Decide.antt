-- ===== src/Requests/Decide.antt =====
-- server/nod-server/crates/nod-server/src/db/requests/decisions.rs: a decision is recorded. `now` is
-- the clock at the expiry test, `resolved_at` the later reading that the decision carries.
pub mod Inversion
pub mod Payload
pub mod Safety
pub mod Nonces
use nod.Base.{
  ℕ, ◌≤◌, String, Bool, true, false, not, ◌&&◌, ◌||◌, Option, none, some, List, [], ◌∷◌, ◌++◌, ◌==◌,
  ltb, leb, any, find, update, count_where, is_some, is_none, is_blank, if◌then◌else◌, trim,
  byte_len, Result, ok, err, bad_request, unauthorized, forbidden, not_found, conflict, refuse_if,
  ok_or, ◌>>=◌, ◌>>◌,
}
use nod.Proto.Answer.{AnswerField, validate, validate_value}
use nod.Proto.Request.{
  RequestOption, resolved, Decision, DecisionSignatureRecord, SubmitDecisionRequest, is_pending,
  is_shared, DecisionSignature,
}
use nod.Env.{Env}
use nod.Store.{Db, RequestRow, UserDecisionRow}
use nod.Model.{DecisionRequest, Device}
use nod.Validation.{check_answer, implicit_dismiss_option}
use nod.Lifecycle.{append_lifecycle_on}
use nod.Requests.Read.{get_request_on}
use nod.Requests.Signature.{verified_decision_signature, is_text}

pub record DecisionSubmission : Type 0 where
  pub request_id : String
  pub option_id : String
  pub actor_device : Option Device
  pub actor_user_id : Option String
  pub decision : SubmitDecisionRequest

-- `actor_user_id != actor_device.map(|d| d.user_id)`, for an actor device that is there.
abbrev pub acts_for_itself : Option Device → Option String → Bool
acts_for_itself (some d) (some u) = u == d.user_id
acts_for_itself _ _ = false

abbrev pub version_of : Option DecisionSignature → Option String
version_of none = none
version_of (some s) = s.payload_version

abbrev pub notes_too_long : Option String → Bool
notes_too_long none = false
notes_too_long (some text) = ltb 16384 (byte_len (trim text))

-- What the submission may carry, by whether the request asks for a value.
unfoldable pub check_payload : Env → DecisionSubmission → Option AnswerField → Result (Unit {0})
unfolding validate validate_value trim
check_payload env s (some field) = do
  refuse_if
      ((s.option_id == "__nod_value_open") || not (acts_for_itself s.actor_device s.actor_user_id))
      (bad_request "value decisions require an authenticated keyed device and real outcome")
  check_answer (validate env.json_len field)
  value ← ok_or s.decision.answer_value (bad_request "explicit answer_value required")
  check_answer (validate_value field value)
  refuse_if (notes_too_long s.decision.text) (bad_request "notes exceed 16384 bytes")
  refuse_if (not (is_text (version_of s.decision.signature) "nod-decision-v2"))
      (bad_request "nod-decision-v2 signature required")
check_payload env s none =
    refuse_if (is_some s.decision.answer_value || is_some (version_of s.decision.signature))
      (bad_request "ordinary request does not accept value payload")

unfoldable pub check_device : Db → Option Device → Result (Unit {0})
check_device db none = ok tt
check_device db (some device) =
    refuse_if (not (any (λ d. (d.id == device.id) && is_none d.revoked_at) db.devices)) unauthorized

unfoldable pub check_recipient : DecisionRequest → Option String → Result (Unit {0})
check_recipient request none = ok tt
check_recipient request (some user_id) =
    refuse_if (not (any (λ r. r == user_id) request.recipients)) forbidden

abbrev pub is_due : ℕ → Option ℕ → Bool
is_due now none = false
is_due now (some expires_at) = leb expires_at now

abbrev pub or_implicit : Option RequestOption → Option RequestOption → Option RequestOption
or_implicit none implicit = implicit
or_implicit (some o) implicit = some o

unfoldable pub find_option : DecisionRequest → String → Option RequestOption
unfolding implicit_dismiss_option
find_option request option_id =
    or_implicit (find (λ o. o.id == option_id) request.options)
      (implicit_dismiss_option request option_id)

abbrev pub trimmed_text : Option String → Option String
trimmed_text none = none
trimmed_text (some text) = if is_blank (trim text) then none else some (trim text)

abbrev pub device_id_of : Option Device → Option String
device_id_of none = none
device_id_of (some d) = some d.id

unfoldable pub decision_of :
    DecisionSubmission → RequestOption → Option DecisionSignatureRecord → ℕ → Decision
unfolding trim
decision_of s option signature resolved_at = record {
  answer_value = s.decision.answer_value;
  request_id = s.request_id;
  option_id = option.id;
  option_kind = option.kind;
  option_label = option.label;
  text = trimmed_text s.decision.text;
  actor_user_id = s.actor_user_id;
  actor_device_id = device_id_of s.actor_device;
  signature = signature;
  resolved_at = resolved_at;
}

-- `WHERE id = ? AND status = 'pending'`.
abbrev pub is_open_row : String → RequestRow → Bool
is_open_row id r = (r.id == id) && is_pending r.status

-- The `UPDATE` behind a per-user decision: the request closes with the last recipient's.
unfoldable pub settle : Db → String → ℕ → List RequestRow
settle db request_id resolved_at =
    let recipient_count = count_where (λ r. r.request_id == request_id) db.recipients in
    let decision_count = count_where (λ d. d.request_id == request_id) db.user_decisions in
    if ltb 0 recipient_count && leb recipient_count decision_count
    then update (is_open_row request_id)
        (λ r. record r {
          status = resolved;
          resolved_at = some resolved_at;
          updated_at = resolved_at;
        })
        db.requests
    else update (λ r. r.id == request_id) (λ r. record r { updated_at = resolved_at }) db.requests

unfoldable pub record_user_decision : Db → String → Option String → Decision → Result Db
record_user_decision db request_id none decision =
    err (bad_request "per-user options require a user actor")
record_user_decision db request_id (some user_id) decision = do
  refuse_if (any (λ r. (r.request_id == request_id) && (r.user_id == user_id)) db.user_decisions)
      (conflict "request was already handled by this user")
  let row : UserDecisionRow = record {
    request_id = request_id;
    user_id = user_id;
    decision = decision;
    resolved_at = decision.resolved_at;
  }
  let added = record db { user_decisions = db.user_decisions ++ row ∷ [] }
  ok (record added { requests = settle added request_id decision.resolved_at })

unfoldable pub record_shared_decision : Db → String → Decision → Result Db
record_shared_decision db request_id decision = do
  refuse_if (not (any (is_open_row request_id) db.requests))
      (conflict "request was already handled")
  ok (record db {
    requests =
        update (is_open_row request_id)
          (λ r. record r {
            status = resolved;
            decision = some decision;
            resolved_at = some decision.resolved_at;
            updated_at = decision.resolved_at;
          })
          db.requests;
  })

-- Every refusal that comes before the signature, and the option that was chosen.
unfoldable pub admit : Env → Db → ℕ → DecisionSubmission → DecisionRequest → Result RequestOption
admit env db now s request = do
  check_payload env s request.answer_field
  check_device db s.actor_device
  check_recipient request s.actor_user_id
  refuse_if (is_due now request.expires_at) (conflict "request has expired")
  option ← ok_or (find_option request s.option_id) not_found
  refuse_if (not (is_pending request.status)) (conflict "request is no longer pending")
  ok option

unfoldable pub write_decision : Db → DecisionSubmission → DecisionRequest → Decision → Result Db
write_decision db s request decision =
    if is_shared request.decision_resolution
    then record_shared_decision db s.request_id decision
    else record_user_decision db s.request_id s.actor_user_id decision

unfoldable pub record_decision :
    Env → Db → ℕ → ℕ → String → DecisionSubmission → Result (DecisionRequest × Db)
record_decision env db now resolved_at event_id s = do
  request ← get_request_on env db s.request_id
  option ← admit env db now s request
  (signature, noted) ←
      verified_decision_signature env db resolved_at request option s.actor_device
        (trimmed_text s.decision.text) s.decision.signature s.decision.answer_value
  let decision = decision_of s option signature resolved_at
  written ← write_decision noted s request decision
  after ← get_request_on env written s.request_id
  done ←
      append_lifecycle_on written resolved_at event_id after "nod.answer.recorded" (some decision)
  ok (after, done)

-- ===== src/Model.antt =====
-- server/nod-server/crates/nod-server/src/models: the server's own view of a request and a device.
use nod.Base.{
  ℕ, String, Bool, not, ◌&&◌, Option, none, some, List, is_none, if◌then◌else◌, Checked, value,
  fault,
}
use nod.Proto.Answer.{AnswerField}
use nod.Proto.Request.{
  CardField, CardLink, RequestNotification, RequestStatus, DecisionResolution, Decision,
  UserDecision, RequestOption, RequestSigningContext, Request,
}
use nod.Env.{Env}

pub record DecisionRequest : Type 0 where
  pub answer_field : Option AnswerField
  pub id : String
  pub channel_id : String
  pub recipients : List String
  pub decision_resolution : DecisionResolution
  pub title : String
  pub summary : String
  pub body_markdown : String
  pub fields : List CardField
  pub links : List CardLink
  pub image_url : Option String
  pub notification : RequestNotification
  pub dedupe_key : Option String
  pub expires_at : Option ℕ
  pub status : RequestStatus
  pub created_at : ℕ
  pub updated_at : ℕ
  pub resolved_at : Option ℕ
  pub decision : Option Decision
  pub user_decisions : List UserDecision
  pub callback_url : Option String
  pub options : List RequestOption
  pub private_recipients : Bool
  pub signing : Option RequestSigningContext

pub record CreatedDecisionRequest : Type 0 where
  pub request_id : String
  pub deduped : Bool
  pub request : DecisionRequest

pub record Device : Type 0 where
  pub id : String
  pub user_id : String
  pub signing_key_id : Option String
  pub signing_key_algorithm : Option String
  pub signing_public_key : Option String

-- `impl From<&DecisionRequest> for nod_proto::Request`.
unfoldable pub wire_of : DecisionRequest → Request
wire_of r = record {
  answer_field = r.answer_field;
  id = r.id;
  request_id = r.id;
  channel_id = r.channel_id;
  recipients = r.recipients;
  decision_resolution = r.decision_resolution;
  title = r.title;
  summary = r.summary;
  body_markdown = r.body_markdown;
  fields = r.fields;
  links = r.links;
  image_url = r.image_url;
  notification = r.notification;
  dedupe_key = r.dedupe_key;
  expires_at = r.expires_at;
  status = r.status;
  created_at = r.created_at;
  updated_at = r.updated_at;
  resolved_at = r.resolved_at;
  decision = r.decision;
  decisions = r.user_decisions;
  callback_url = r.callback_url;
  options = r.options;
  request_digest = none;
  signing = r.signing;
}

-- `.ok()`.
abbrev pub ok_of : Checked String → Option String
ok_of (value a) = some a
ok_of (fault e) = none

unfoldable pub to_wire : Env → DecisionRequest → Request
unfolding wire_of
to_wire env r =
    let wire = wire_of r in
    if not r.private_recipients && is_none r.answer_field
    then record wire { request_digest = ok_of (env.request_digest_legacy_line_snapshot wire) }
    else wire

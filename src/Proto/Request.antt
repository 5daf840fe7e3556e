-- ===== src/Proto/Request.antt =====
-- nod-proto/src/request.rs and decision.rs: a request card, its options, a decision and its
-- signatures. A time is a number of milliseconds, the precision at which the server stores it.
pub mod Words
use nod.Base.{
  ℕ, String, Bool, true, false, Option, none, some, List, [], ◌∷◌, ◌==◌, if◌then◌else◌,
  String-discrete,
}
use nod.Proto.Answer.{AnswerValue, AnswerField}

pub record CardField : Type 0 where
  pub label : String
  pub value : String
  pub style : Option String

pub record CardLink : Type 0 where
  pub label : String
  pub url : String

pub data OptionKind : Type 0 where
  approve approve_with_text reject reject_with_text dismiss open_link custom : OptionKind

pub record RequestOption : Type 0 where
  pub id : String
  pub label : String
  pub kind : OptionKind
  pub style : String
  pub requires_text : Bool
  pub text_placeholder : Option String
  pub destructive : Bool
  pub foreground : Bool

pub record RequestNotification : Type 0 where
  pub redact : Bool
  pub title : Option String
  pub body : Option String

pub data RequestStatus : Type 0 where
  pending resolved expired cancelled : RequestStatus

pub data DecisionResolution : Type 0 where
  shared per_user : DecisionResolution

pub record DecisionSignature : Type 0 where
  pub payload_version : Option String
  pub key_id : String
  pub algorithm : String
  pub nonce : String
  pub signed_at : String
  pub request_digest : String
  pub signature : String

pub record DecisionSignatureRecord : Type 0 where
  pub payload_version : Option String
  pub key_id : String
  pub algorithm : String
  pub nonce : String
  pub signed_at : String
  pub request_digest : String
  pub signing_payload : String
  pub signature : String
  pub verified : Bool
  pub public_key : Option String

pub record Decision : Type 0 where
  pub answer_value : Option AnswerValue
  pub request_id : String
  pub option_id : String
  pub option_kind : OptionKind
  pub option_label : String
  pub text : Option String
  pub actor_user_id : Option String
  pub actor_device_id : Option String
  pub signature : Option DecisionSignatureRecord
  pub resolved_at : ℕ

pub record UserDecision : Type 0 where
  pub user_id : String
  pub decision : Decision

pub record SubmitDecisionRequest : Type 0 where
  pub answer_value : Option AnswerValue
  pub text : Option String
  pub signature : Option DecisionSignature

pub record RequestSigningContext : Type 0 where
  pub version : String
  pub recipients_commitment : String
  pub request_digest : String

pub record CreateDecisionRequest : Type 0 where
  pub answer_field : Option AnswerField
  pub channel_id : String
  pub recipients : Option (List String)
  pub decision_resolution : Option DecisionResolution
  pub title : String
  pub summary : String
  pub body_markdown : String
  pub fields : List CardField
  pub links : List CardLink
  pub image_url : Option String
  pub notification : RequestNotification
  pub dedupe_key : Option String
  pub expires_at : Option ℕ
  pub options : List RequestOption
  pub callback_url : Option String

-- The wire shape of a request.
pub record Request : Type 0 where
  pub answer_field : Option AnswerField
  pub id : String
  pub request_id : String
  pub channel_id : String
  pub recipients : List String
  pub decision_resolution : DecisionResolution
  pub title : String
  pub summary : String
  pub body_markdown : String
  pub fields : List CardField
  pub links : List CardLink
  pub image_url : Option String
  pub notification : RequestNotification
  pub dedupe_key : Option String
  pub expires_at : Option ℕ
  pub status : RequestStatus
  pub created_at : ℕ
  pub updated_at : ℕ
  pub resolved_at : Option ℕ
  pub decision : Option Decision
  pub decisions : List UserDecision
  pub callback_url : Option String
  pub options : List RequestOption
  pub request_digest : Option String
  pub signing : Option RequestSigningContext

-- nod-proto/src/signing.rs: what a decision's signature is taken over.
pub record DecisionSigningInput : Type 0 where
  pub request_id : String
  pub request_digest : String
  pub option_id : String
  pub option_kind : OptionKind
  pub user_id : String
  pub device_id : String
  pub key_id : String
  pub nonce : String
  pub signed_at : String
  pub text : Option String

pub CardField-discrete : Discrete CardField
CardField-discrete = hlevel String-discrete

pub CardLink-discrete : Discrete CardLink
CardLink-discrete = hlevel String-discrete

unfoldable pub OptionKind-discrete : Discrete OptionKind
OptionKind-discrete = hlevel

pub RequestOption-discrete : Discrete RequestOption
RequestOption-discrete = hlevel (String-discrete, OptionKind-discrete)

pub RequestNotification-discrete : Discrete RequestNotification
RequestNotification-discrete = hlevel String-discrete

pub DecisionResolution-discrete : Discrete DecisionResolution
DecisionResolution-discrete = hlevel

abbrev pub is_pending : RequestStatus → Bool
is_pending pending = true
is_pending _ = false

abbrev pub is_shared : DecisionResolution → Bool
is_shared shared = true
is_shared per_user = false

abbrev pub is_open : OptionKind → Bool
is_open open_link = true
is_open _ = false

-- `ApproveWithText | RejectWithText`.
abbrev pub takes_text : OptionKind → Bool
takes_text approve_with_text = true
takes_text reject_with_text = true
takes_text _ = false

-- `as_str` and `From<&str>`, by which the server stores the three enumerations.
unfoldable pub kind_str : OptionKind → String
kind_str approve = "approve"
kind_str approve_with_text = "approve_with_text"
kind_str reject = "reject"
kind_str reject_with_text = "reject_with_text"
kind_str dismiss = "dismiss"
kind_str open_link = "open"
kind_str custom = "custom"

pub kind_of_str : String → OptionKind
kind_of_str value =
    if value == "approve"
    then approve
    else if value == "approve_with_text"
    then approve_with_text
    else if value == "reject"
    then reject
    else if value == "reject_with_text"
    then reject_with_text
    else if value == "dismiss"
    then dismiss
    else if value == "open"
    then open_link
    else custom

-- The words that serde writes (`rename_all = "snake_case"`) and the statements of the server use.
pub status_str : RequestStatus → String
status_str pending = "pending"
status_str resolved = "resolved"
status_str expired = "expired"
status_str cancelled = "cancelled"

pub status_of_str : String → RequestStatus
status_of_str value =
    if value == "resolved"
    then resolved
    else if value == "expired"
    then expired
    else if value == "cancelled"
    then cancelled
    else if value == "canceled"
    then cancelled
    else pending

pub resolution_str : DecisionResolution → String
resolution_str shared = "shared"
resolution_str per_user = "per_user"

pub resolution_of_str : String → DecisionResolution
resolution_of_str value = if value == "per_user" then per_user else shared

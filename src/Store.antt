-- ===== src/Store.antt =====
-- server/nod-server/crates/nod-server/src/db: the tables of schema.sql that the modelled statements
-- read and write, one record to a table. A column of JSON text holds the value that was encoded.
use nod.Base.{
  ℕ, String, Bool, Option, List, [], ◌∷◌, ◌++◌, Result, ok, err, internal, any, if◌then◌else◌,
}
use nod.Proto.Answer.{AnswerField}
use nod.Proto.Request.{
  CardField, CardLink, RequestNotification, RequestStatus, DecisionResolution, Decision,
  UserDecision, RequestOption,
}
use nod.Env.{Origin}

pub record ChannelRow : Type 0 where
  pub id : String
  pub name : String
  pub emoji : String
  pub created_at : ℕ

pub record UserRow : Type 0 where
  pub id : String
  pub name : String
  pub created_at : ℕ
  pub updated_at : ℕ
  pub deleted_at : Option ℕ

pub record SubscriptionRow : Type 0 where
  pub user_id : String
  pub channel_id : String
  pub subscribed : Bool
  pub updated_at : ℕ

pub record DeviceRow : Type 0 where
  pub id : String
  pub user_id : String
  pub name : String
  pub platform : String
  pub native_app_id : Option String
  pub token_hash : String
  pub push_provider : Option String
  pub push_token : Option String
  pub signing_key_id : Option String
  pub signing_key_algorithm : Option String
  pub signing_public_key : Option String
  pub revoked_at : Option ℕ
  pub last_seen_at : ℕ
  pub created_at : ℕ

pub record RequestRow : Type 0 where
  pub id : String
  pub channel_id : String
  pub title : String
  pub summary : String
  pub body_markdown : String
  pub fields : List CardField
  pub links : List CardLink
  pub image_url : Option String
  pub notification : RequestNotification
  pub dedupe_key : Option String
  pub expires_at : Option ℕ
  pub status : RequestStatus
  pub created_at : ℕ
  pub updated_at : ℕ
  pub resolved_at : Option ℕ
  pub decision : Option Decision
  pub callback_url : Option String
  pub decision_resolution : DecisionResolution
  pub recipient_salt : String
  pub explicit_recipients : Bool
  pub revision : ℕ
  pub created_by_issuer_token_id : Option String
  pub answer_field : Option AnswerField

pub record RecipientRow : Type 0 where
  pub request_id : String
  pub user_id : String
  pub created_at : ℕ

pub record OptionRow : Type 0 where
  pub request_id : String
  pub option : RequestOption
  pub created_at : ℕ

pub record UserDecisionRow : Type 0 where
  pub request_id : String
  pub user_id : String
  pub decision : Decision
  pub resolved_at : ℕ

pub record NonceRow : Type 0 where
  pub device_id : String
  pub key_id : String
  pub nonce : String
  pub used_at : ℕ

pub record IdempotencyRow : Type 0 where
  pub scope : String
  pub channel_id : String
  pub key : String
  pub fingerprint : String
  pub request_id : String

pub record OriginRow : Type 0 where
  pub request_id : String
  pub origin : Origin

-- `lease_until` of a push is in seconds (`unixepoch()`), every other time in milliseconds.
pub record PushRow : Type 0 where
  pub request_id : String
  pub device_id : String
  pub status : String
  pub attempts : ℕ
  pub lease_until : Option ℕ
  pub claim_generation : ℕ
  pub updated_at : ℕ
  pub error : Option String

-- `seq` is the row's position; the two JSON texts are given by the fields they are built from.
pub record EventRow : Type 0 where
  pub seq : ℕ
  pub event_id : String
  pub request_id : String
  pub channel_id : String
  pub revision : ℕ
  pub kind : String
  pub occurred_at : ℕ
  pub aggregate_status : RequestStatus
  pub creator : Option String
  pub origin : Option Origin
  pub decision : Option Decision
  pub published_at : Option ℕ
  pub stream_seq : Option ℕ
  pub attempts : ℕ
  pub next_attempt_at : ℕ
  pub lease_token : Option String
  pub lease_until : Option ℕ
  pub last_error : Option String

-- `CallbackPayload` of src/views.rs.
pub record CallbackPayload : Type 0 where
  pub request_id : String
  pub channel_id : String
  pub status : RequestStatus
  pub decision : Option Decision
  pub decisions : List UserDecision
  pub decision_resolution : DecisionResolution

pub data CallbackState : Type 0 where
  queued sending retrying blocked_policy delivered : CallbackState

pub record CallbackRow : Type 0 where
  pub delivery_id : String
  pub event_id : String
  pub request_id : String
  pub request_revision : ℕ
  pub url : String
  pub payload : CallbackPayload
  pub state : CallbackState
  pub attempts : ℕ
  pub next_attempt_at : ℕ
  pub lease_token : Option String
  pub lease_until : Option ℕ
  pub delivered_at : Option ℕ
  pub last_status : Option ℕ
  pub last_error : Option String
  pub updated_at : ℕ

pub record Db : Type 0 where
  pub channels : List ChannelRow
  pub users : List UserRow
  pub subscriptions : List SubscriptionRow
  pub devices : List DeviceRow
  pub requests : List RequestRow
  pub recipients : List RecipientRow
  pub options : List OptionRow
  pub user_decisions : List UserDecisionRow
  pub nonces : List NonceRow
  pub idempotency : List IdempotencyRow
  pub origins : List OriginRow
  pub pushes : List PushRow
  pub events : List EventRow
  pub callbacks : List CallbackRow

-- `INSERT` into a table with a primary key or a unique index: an error if a row clashes.
abbrev pub insert_row {ℓ} : {A : Type ℓ} → (A → Bool) → A → List A → Result (List A)
insert_row clash row rows =
    if any clash rows then err (internal "database error") else ok (rows ++ row ∷ [])

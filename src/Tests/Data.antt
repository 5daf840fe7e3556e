-- ===== src/Tests/Data.antt =====
-- The data of the tests: a channel with two users, a device with a signing key, a request and its answer.
use nod.Base.{true, false, ◌==◌, none, some, [], ◌∷◌, value, Result, ok, err}
use nod.Proto.Request.{approve, RequestOption, shared, CreateDecisionRequest, DecisionSignature}
use nod.Env.{Env}
use nod.Store.{Db, DeviceRow}
use nod.Model.{Device}
use nod.Requests.Content.{CreateRequestMetadata}
use nod.Requests.Insert.{Fresh}
use nod.Requests.Decide.{DecisionSubmission}

abbrev pub env : Env
env = record {
  parse_url = λ s. none;
  parse_time = λ s. some 5000;
  show_time = λ t. "1970-01-01T00:00:05.000Z";
  json_len = λ f. 0;
  fingerprint = λ r. "print";
  origin_fingerprint = λ f o. "print with origin";
  signing = record {
    recipients_commitment = λ us salt. value "commitment";
    request_digest_v1 = λ r c. value "digest";
    request_digest_legacy_structured_v2 = λ r c. value "old digest";
    request_digest_legacy_line_snapshot = λ r. value "oldest digest";
    value_request_digest = λ r c f. value "value digest";
    value_request_digest_legacy_v3 = λ r c f. value "old value digest";
    decision_signing_payload = λ i. "payload";
    decision_signing_payload_v2 = λ i v. value "value payload";
    verify_payload = λ k p s. s == "signed";
  };
}

abbrev phone_row : DeviceRow
phone_row = record {
  id = "phone";
  user_id = "ann";
  name = "Phone";
  platform = "ios";
  native_app_id = some "app.nod";
  token_hash = "hash";
  push_provider = some "apns";
  push_token = some "token";
  signing_key_id = some "key";
  signing_key_algorithm = none;
  signing_public_key = some "public";
  revoked_at = none;
  last_seen_at = 0;
  created_at = 0;
}

abbrev pub phone : Device
phone = record {
  id = "phone";
  user_id = "ann";
  signing_key_id = some "key";
  signing_key_algorithm = none;
  signing_public_key = some "public";
}

abbrev pub empty : Db
empty = record {
  channels = record { id = "ops"; name = "Ops"; emoji = "!"; created_at = 0 } ∷ [];
  users =
      record { id = "ann"; name = "Ann"; created_at = 0; updated_at = 0; deleted_at = none }
      ∷ record { id = "bob"; name = "Bob"; created_at = 0; updated_at = 0; deleted_at = none }
      ∷ [];
  subscriptions =
      record { user_id = "ann"; channel_id = "ops"; subscribed = true; updated_at = 0 }
      ∷ record { user_id = "bob"; channel_id = "ops"; subscribed = true; updated_at = 0 }
      ∷ [];
  devices = phone_row ∷ [];
  requests = [];
  recipients = [];
  options = [];
  user_decisions = [];
  nonces = [];
  idempotency = [];
  origins = [];
  pushes = [];
  events = [];
  callbacks = [];
}

abbrev pub yes_option : RequestOption
yes_option = record {
  id = "yes";
  label = "Yes";
  kind = approve;
  style = "default";
  requires_text = false;
  text_placeholder = none;
  destructive = false;
  foreground = false;
}

abbrev pub deploy : CreateDecisionRequest
deploy = record {
  answer_field = none;
  channel_id = "ops";
  recipients = none;
  decision_resolution = some shared;
  title = "Deploy?";
  summary = "v2";
  body_markdown = "";
  fields = [];
  links = [];
  image_url = none;
  notification = record { redact = false; title = none; body = none };
  dedupe_key = some "deploy";
  expires_at = some 60000;
  options = yes_option ∷ [];
  callback_url = none;
}

abbrev pub by_token : CreateRequestMetadata
by_token = record {
  origin = none;
  created_by_issuer_token_id = some "issuer";
  idempotency_key = some "once";
}

abbrev pub fresh1 : Fresh
fresh1 = record { request_id = "r1"; recipient_salt = "salt"; event_id = "e1" }

abbrev pub fresh2 : Fresh
fresh2 = record { request_id = "r2"; recipient_salt = "pepper"; event_id = "e2" }

abbrev pub signature1 : DecisionSignature
signature1 = record {
  payload_version = none;
  key_id = "key";
  algorithm = "p256_ecdsa_sha256";
  nonce = "n1";
  signed_at = "1970-01-01T00:00:05Z";
  request_digest = "digest";
  signature = "signed";
}

abbrev pub says_yes : DecisionSubmission
says_yes = record {
  request_id = "r1";
  option_id = "yes";
  actor_device = some phone;
  actor_user_id = some "ann";
  decision = record { answer_value = none; text = none; signature = some signature1 };
}

-- The database behind a result, or the one before.
abbrev pub state {ℓ} : {A : Type ℓ} → Db → Result (A × Db) → Db
state db (ok p) = p.1
state db (err e) = db

abbrev pub answer {ℓ} : {A : Type ℓ} → A → Result (A × Db) → A
answer a (ok p) = p.0
answer a (err e) = a

-- ===== src/Env.antt =====
-- What the server's handlers call and this development does not define.
-- The first group is not in the repository: url, chrono, serde_json, sha2. The second is the signing
-- interface of nod-proto/src/signing.rs and value_signing.rs, which hash and verify by sha2 and p256.
use nod.Base.{ℕ, String, Bool, Option, List, Checked}
use nod.Proto.Answer.{AnswerValue, AnswerField}
use nod.Proto.Request.{Request, CreateDecisionRequest, DecisionSigningInput}

-- What the server reads of a `url::Url`.
pub record Url : Type 0 where
  pub scheme : String
  pub host : Option String

-- server/nod-server/crates/nod-server/src/db/lifecycle.rs.
pub record Origin : Type 0 where
  pub session : String
  pub directory : String
  pub reference : Option String

pub record Signing : Type 0 where
  pub recipients_commitment : List String → String → Checked String
  pub request_digest_v1 : Request → String → Checked String
  pub request_digest_legacy_structured_v2 : Request → String → Checked String
  pub request_digest_legacy_line_snapshot : Request → Checked String
  pub value_request_digest : Request → String → AnswerField → Checked String
  pub value_request_digest_legacy_v3 : Request → String → AnswerField → Checked String
  pub decision_signing_payload : DecisionSigningInput → String
  pub decision_signing_payload_v2 : DecisionSigningInput → AnswerValue → Checked String
  pub verify_payload : (public_key payload signature : String) → Bool

pub record Env : Type 0 where
  -- `Url::parse`.
  pub parse_url : String → Option Url
  -- `DateTime::parse_from_rfc3339`, and `to_rfc3339_opts` with milliseconds.
  pub parse_time : String → Option ℕ
  pub show_time : ℕ → String
  -- `serde_json::to_vec(field).len()`.
  pub json_len : AnswerField → ℕ
  -- `Sha256` of the JSON text of a request, and of the triple that binds it to an origin.
  pub fingerprint : CreateDecisionRequest → String
  pub origin_fingerprint : String → Origin → String
  pub signing : Signing
  pub open signing use *

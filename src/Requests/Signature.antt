-- ===== src/Requests/Signature.antt =====
-- server/nod-server/crates/nod-server/src/signing.rs, and the signature part of
-- db/requests/decisions.rs: the policy of a decision's signature. Hashes, payloads and the P-256
-- check come from the signing interface.
pub mod Inversion
use nod.Base.{
  ℕ, String, Bool, true, false, not, ◌&&◌, ◌||◌, Option, none, some, List, [], ◌∷◌, ◌++◌, ◌==◌, ltb,
  any, is_some, is_none, is_blank, if◌then◌else◌, trim, byte_len, Result, ok, err, bad_request,
  forbidden, conflict, refuse_if, ok_or, map_err, ◌>>=◌, ◌>>◌,
}
use nod.Proto.Answer.{AnswerValue, AnswerField, validate_value}
use nod.Proto.Request.{
  RequestOption, DecisionSignature, DecisionSignatureRecord, RequestSigningContext, Request,
  DecisionSigningInput,
}
use nod.Env.{Env}
use nod.Store.{Db, NonceRow, insert_row}
use nod.Model.{DecisionRequest, Device, to_wire}
use nod.Validation.{check_answer}

abbrev pub default_algorithm : String
default_algorithm = "p256_ecdsa_sha256"

abbrev pub or_default : Option String → String
or_default none = default_algorithm
or_default (some a) = a

abbrev pub is_text : Option String → String → Bool
is_text none s = false
is_text (some t) s = t == s

-- The digests that could have been issued for a request with an answer field.
unfoldable pub value_candidates :
    Env → Request → AnswerField → Option RequestSigningContext → Result (List String)
value_candidates env wire field none =
    err (bad_request "value request is missing its signing context")
value_candidates env wire field (some context) = do
  current ← map_err bad_request (env.value_request_digest wire context.recipients_commitment field)
  legacy ←
      map_err bad_request
        (env.value_request_digest_legacy_v3 wire context.recipients_commitment field)
  ok (current ∷ legacy ∷ [])

unfoldable pub context_candidates :
    Env → Request → String → Option RequestSigningContext → Result (List String)
context_candidates env wire stamped none = ok (stamped ∷ [])
context_candidates env wire stamped (some context) = do
  current ← map_err bad_request (env.request_digest_v1 wire context.recipients_commitment)
  legacy ←
      map_err bad_request
        (env.request_digest_legacy_structured_v2 wire context.recipients_commitment)
  ok (stamped ∷ current ∷ legacy ∷ [])

unfoldable pub legacy_digest : Env → Request → Result String
legacy_digest env wire = elim wire.request_digest [
  | some stamped ↦ ok stamped
  | none ↦ map_err bad_request (env.request_digest_legacy_line_snapshot wire)
]

unfoldable pub digest_candidates : Env → DecisionRequest → Result (List String)
unfolding value_candidates context_candidates legacy_digest to_wire
digest_candidates env request =
    let wire = to_wire env request in
    elim request.answer_field [
      | some field ↦ value_candidates env wire field wire.signing
      | none ↦ do stamped ← legacy_digest env wire; context_candidates env wire stamped wire.signing
    ]

unfoldable pub signing_payload :
    Env
    → DecisionRequest
    → DecisionSigningInput
    → DecisionSignature
    → Option AnswerValue
    → Result String
unfolding validate_value
signing_payload env request input provided answer = elim request.answer_field [
  | some field ↦ do
    refuse_if
        (not (is_text provided.payload_version "nod-decision-v2")
          || not (provided.signed_at == input.signed_at))
        (bad_request "invalid value signature context")
    value ← ok_or answer (bad_request "explicit answer_value required")
    check_answer (validate_value field value)
    map_err bad_request (env.decision_signing_payload_v2 input value)
  | none ↦ do
    refuse_if (is_some answer || is_some provided.payload_version)
        (bad_request "ordinary request does not accept value payload")
    ok (env.decision_signing_payload input)
]

abbrev pub signing_input :
    DecisionRequest
    → RequestOption
    → Device
    → Option String
    → DecisionSignature
    → String
    → DecisionSigningInput
signing_input request option actor text provided signed_at = record {
  request_id = request.id;
  request_digest = provided.request_digest;
  option_id = option.id;
  option_kind = option.kind;
  user_id = actor.user_id;
  device_id = actor.id;
  key_id = provided.key_id;
  nonce = provided.nonce;
  signed_at = signed_at;
  text = text;
}

-- The digest and the payload that the signature was found to cover.
unfoldable pub verify_value_decision_signature :
    Env
    → DecisionRequest
    → RequestOption
    → Device
    → Option String
    → DecisionSignature
    → Option AnswerValue
    → Result (String × String)
verify_value_decision_signature env request option actor text provided answer = do
  device_key_id ←
      ok_or actor.signing_key_id (bad_request "device does not have a registered signing key")
  public_key ←
      ok_or actor.signing_public_key (bad_request "device does not have a registered signing key")
  refuse_if
      (not (or_default actor.signing_key_algorithm == default_algorithm)
        || not (provided.algorithm == default_algorithm))
      (bad_request "unsupported decision signature algorithm")
  refuse_if (not (provided.key_id == device_key_id))
      (bad_request "decision signature key_id does not match this device")
  refuse_if (is_blank (trim provided.nonce) || ltb 160 (byte_len provided.nonce))
      (bad_request "decision signature nonce is required")
  candidates ← digest_candidates env request
  refuse_if (not (any (λ c. c == provided.request_digest) candidates))
      (bad_request "decision signature request_digest does not match the request snapshot")
  signed_at ←
      ok_or (env.parse_time provided.signed_at)
        (bad_request "decision signature signed_at is invalid")
  let input = signing_input request option actor text provided (env.show_time signed_at)
  payload ← signing_payload env request input provided answer
  refuse_if (not (env.verify_payload public_key payload provided.signature)) forbidden
  ok (provided.request_digest, payload)

unfoldable pub insert_decision_nonce : Db → ℕ → String → String → String → Result Db
insert_decision_nonce db now device_id key_id nonce = do
  refuse_if
      (any (λ r. (r.device_id == device_id) && (r.key_id == key_id) && (r.nonce == nonce))
        db.nonces)
      (conflict "decision signature nonce has already been used")
  ok (record db {
    nonces =
        db.nonces
        ++ record { device_id = device_id; key_id = key_id; nonce = nonce; used_at = now } ∷ [];
  })

abbrev pub is_filled : Option String → Bool
is_filled none = false
is_filled (some s) = not (is_blank (trim s))

abbrev pub signature_record : Device → DecisionSignature → String → String → DecisionSignatureRecord
signature_record actor provided digest payload = record {
  payload_version = provided.payload_version;
  key_id = provided.key_id;
  algorithm = provided.algorithm;
  nonce = provided.nonce;
  signed_at = provided.signed_at;
  request_digest = digest;
  signing_payload = payload;
  signature = provided.signature;
  verified = true;
  public_key = actor.signing_public_key;
}

unfoldable pub verified_decision_signature :
    Env
    → Db
    → ℕ
    → DecisionRequest
    → RequestOption
    → Option Device
    → Option String
    → Option DecisionSignature
    → Option AnswerValue
    → Result (Option DecisionSignatureRecord × Db)
verified_decision_signature env db now request option none text provided answer = do
  refuse_if (is_some provided) (bad_request "decision signatures require a device actor")
  ok (none, db)
verified_decision_signature env db now request option (some actor) text provided answer = do
  refuse_if (not (is_filled actor.signing_public_key && is_filled actor.signing_key_id))
      (bad_request "device does not have a registered signing key")
  signature ← ok_or provided (bad_request "signed decision payload is required")
  (digest, payload) ← verify_value_decision_signature env request option actor text signature answer
  noted ← insert_decision_nonce db now actor.id signature.key_id signature.nonce
  ok (some (signature_record actor signature digest payload), noted)

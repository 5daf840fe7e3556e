-- ===== src/Proto/Receipt.antt =====
-- nod-proto/src/receipt.rs: the check of a decision's receipt against the created request and pinned keys,
-- without the server. Times and durations are numbers of milliseconds.
pub mod Facts
pub mod Sound
pub mod Complete
use nod.Base.{
  ℕ, ◌+◌, ◌-◌, String, Bool, true, false, not, ◌&&◌, ◌||◌, List, [], ◌∷◌, ◌++◌, Option, none, some,
  ltb, is_blank, is_empty, is_some, holds, if◌then◌else◌, map, any, find, ◌==◌,
}
use nod.Base.Tried.{Tried, done, failed, ◌>>=◌, ◌>>◌, fail_if, done_or, map_failed}
use nod.Proto.Answer.{AnswerValue, AnswerField}
use nod.Proto.Request.{
  Request, RequestOption, OptionKind, OptionKind-discrete, dismiss, RequestSigningContext, Decision,
  DecisionSignatureRecord, DecisionSigningInput,
}
use nod.Proto.Signing.{
  Codec, P256, SigningError, or_empty, request_digest_v1, request_digest_legacy_structured_v2,
  request_digest_legacy_line_snapshot, decision_signing_payload, verify_payload,
}
use nod.Proto.ValueSigning.{
  value_request_digest, value_request_digest_legacy_v3, decision_signing_payload_v2,
}

abbrev pub default_max_clock_skew : ℕ
default_max_clock_skew = 600000

pub record PinnedKey : Type 0 where
  pub user_id : String
  pub device_id : Option String
  pub key_id : String
  pub public_key : String

pub record ReceiptVerificationInput : Type 0 where
  pub request : Request
  pub decision : Decision
  pub pinned_keys : List PinnedKey
  pub now : ℕ
  pub max_clock_skew : Option ℕ
  pub strict_time : Bool

pub data DigestEncoder : Type 0 where
  structured valued legacy_line_snapshot legacy_structured legacy_value : DigestEncoder

-- `as_str`.
pub encoder_str : DigestEncoder → String
encoder_str structured = "structured"
encoder_str valued = "value"
encoder_str legacy_line_snapshot = "legacy-line-snapshot"
encoder_str legacy_structured = "legacy-structured"
encoder_str legacy_value = "legacy-value"

-- `version`, `is_current`.
pub encoder_version : DigestEncoder → String
encoder_version structured = "nod-request-v1"
encoder_version valued = "nod-request-v2"
encoder_version legacy_line_snapshot = "nod-request-v1"
encoder_version legacy_structured = "nod-request-v2"
encoder_version legacy_value = "nod-request-v3"

pub is_current_encoder : DigestEncoder → Bool
is_current_encoder structured = true
is_current_encoder valued = true
is_current_encoder _ = false

pub data ReceiptError : Type 0 where
  missing_signature missing_signing_context missing_actor missing_answer_value : ReceiptError
  unexpected_answer_value signing_payload_mismatch : ReceiptError
  unsupported_algorithm unsupported_payload_version unsupported_digest_version :
      String → ReceiptError
  unknown_option invalid_signed_at : String → ReceiptError
  request_id_mismatch unknown_key : String → String → ReceiptError
  request_digest_mismatch : List String → String → ReceiptError
  device_mismatch : (key_id pinned found : String) → ReceiptError
  option_kind_mismatch : String → (expected found : OptionKind) → ReceiptError
  signature_invalid digest_failed payload_failed : SigningError → ReceiptError
  clock_skew : (signed_at now skew tolerance : ℕ) → ReceiptError

-- The values of which a warning's text is made.
pub data Warning : Type 0 where
  clock_warning : ReceiptError → Warning
  resolved_far_away : (resolved_at difference signed_at : ℕ) → Warning

pub record VerifiedReceipt : Type 0 where
  pub request_id : String
  pub user_id : String
  pub device_id : String
  pub key_id : String
  pub option_id : String
  pub option_kind : OptionKind
  pub request_digest : String
  pub digest_encoder : DigestEncoder
  pub signed_at : ℕ
  pub warnings : List Warning

abbrev pub is_known_version : String → Bool
is_known_version v = (v == "nod-request-v1") || (v == "nod-request-v2") || (v == "nod-request-v3")

-- A context with a version that no encoder has.
abbrev pub known_context : Option RequestSigningContext → Tried ReceiptError (Unit {0})
known_context none = done tt
known_context (some signing) =
    fail_if (not (is_known_version signing.version)) (unsupported_digest_version signing.version)

abbrev commitment_of : Option RequestSigningContext → Option String
commitment_of none = none
commitment_of (some signing) = some signing.recipients_commitment

unfoldable pub resolve_option : Request → String → Tried ReceiptError RequestOption
resolve_option request option_id = elim (find (λ o. o.id == option_id) request.options) [
  | some o ↦ done o
  | none ↦
      if is_empty request.options && not (is_some request.answer_field) && (option_id == "dismiss")
      then done (record {
        id = "dismiss";
        label = "Dismiss";
        kind = dismiss;
        style = "default";
        requires_text = false;
        text_placeholder = none;
        destructive = false;
        foreground = false;
      })
      else failed (unknown_option option_id)
]

abbrev pub names_another : Request → Decision → Bool
names_another request decision =
    not (decision.request_id == request.id)
    || not (is_blank request.request_id) && not (request.request_id == request.id)

abbrev pub actor_of : Option String → Option String → Tried ReceiptError (String × String)
actor_of (some user_id) (some device_id) = done (user_id, device_id)
actor_of _ _ = failed missing_actor

abbrev pub is_other_device : Option String → String → Bool
is_other_device none device_id = false
is_other_device (some pinned) device_id = not (pinned == device_id)

-- `(a - b).abs()`.
abbrev pub apart : ℕ → ℕ → ℕ
apart a b = (a - b) + (b - a)

abbrev pub or_default_skew : Option ℕ → ℕ
or_default_skew none = default_max_clock_skew
or_default_skew (some t) = t

module _ (codec : Codec) where
  unfoldable pub structured_candidates :
      Request → Option String → Tried ReceiptError (List (String × DigestEncoder))
  structured_candidates request none = done []
  structured_candidates request (some commitment) = do
    current ← map_failed digest_failed (request_digest_v1 codec request commitment)
    legacy ← map_failed digest_failed (request_digest_legacy_structured_v2 codec request commitment)
    done ((current, structured) ∷ (legacy, legacy_structured) ∷ [])

  unfoldable pub receipt_candidates : Request → Tried ReceiptError (List (String × DigestEncoder))
  unfolding structured_candidates
  receipt_candidates request = elim request.answer_field [
    | some field ↦ do
      commitment ← done_or (commitment_of request.signing) missing_signing_context
      current ← map_failed digest_failed (value_request_digest codec request commitment field)
      legacy ←
          map_failed digest_failed (value_request_digest_legacy_v3 codec request commitment field)
      done ((current, valued) ∷ (legacy, legacy_value) ∷ [])
    | none ↦ do
      contextual ← structured_candidates request (commitment_of request.signing)
      line ← map_failed digest_failed (request_digest_legacy_line_snapshot codec request)
      done (contextual ++ (line, legacy_line_snapshot) ∷ [])
  ]

  unfoldable pub match_request_digest :
      Request → String → Tried ReceiptError (String × DigestEncoder)
  unfolding receipt_candidates
  match_request_digest request found = do
    known_context request.signing
    candidates ← receipt_candidates request
    done_or (find (λ c. c.0 == found) candidates)
        (request_digest_mismatch (map (λ c. c.0) candidates) found)

  -- The payload that the signature must be over.
  unfoldable pub rebuilt_payload :
      Request → Decision → Option String → DecisionSigningInput → Tried ReceiptError String
  rebuilt_payload request decision none input = do
    fail_if (is_some decision.answer_value || is_some request.answer_field) unexpected_answer_value
    done (decision_signing_payload codec input)
  rebuilt_payload request decision (some version) input =
      if version == "nod-decision-v2"
      then (do
        answer ← done_or decision.answer_value missing_answer_value
        map_failed payload_failed (decision_signing_payload_v2 codec input answer))
      else failed (unsupported_payload_version version)

  abbrev pub payload_input :
      Decision
      → DecisionSignatureRecord
      → (request_digest user_id device_id : String) → ℕ
      → DecisionSigningInput
  payload_input decision signature request_digest user_id device_id signed_at = record {
    request_id = decision.request_id;
    request_digest = request_digest;
    option_id = decision.option_id;
    option_kind = decision.option_kind;
    user_id = user_id;
    device_id = device_id;
    key_id = signature.key_id;
    nonce = signature.nonce;
    signed_at = codec.show_time signed_at;
    text = decision.text;
  }

  -- The clock against the time of the signature, and that against the server's.
  unfoldable pub time_warnings : ReceiptVerificationInput → ℕ → Tried ReceiptError (List Warning)
  time_warnings input signed_at =
      let tolerance = or_default_skew input.max_clock_skew in
      let skew = apart input.now signed_at in
      let late = apart input.decision.resolved_at signed_at in
      let error = clock_skew signed_at input.now skew tolerance in
      let far =
        if ltb tolerance late
        then resolved_far_away input.decision.resolved_at late signed_at ∷ []
        else [] in
      if ltb tolerance skew
      then if input.strict_time then failed error else done (clock_warning error ∷ far)
      else done far

  module _ (p256 : P256) where
    unfoldable pub verify_decision_receipt :
        ReceiptVerificationInput → Tried ReceiptError VerifiedReceipt
    unfolding match_request_digest resolve_option rebuilt_payload time_warnings
    verify_decision_receipt input = do
      let request = input.request
      let decision = input.decision
      signature ← done_or decision.signature missing_signature
      fail_if (not (signature.algorithm == "p256_ecdsa_sha256"))
          (unsupported_algorithm signature.algorithm)
      fail_if (names_another request decision) (request_id_mismatch request.id decision.request_id)
      digest ← match_request_digest request signature.request_digest
      option ← resolve_option request decision.option_id
      fail_if (not (holds (OptionKind-discrete option.kind decision.option_kind)))
          (option_kind_mismatch decision.option_id option.kind decision.option_kind)
      actor ← actor_of decision.actor_user_id decision.actor_device_id
      pinned ←
          done_or
            (find (λ k. (k.user_id == actor.0) && (k.key_id == signature.key_id)) input.pinned_keys)
            (unknown_key actor.0 signature.key_id)
      fail_if (is_other_device pinned.device_id actor.1)
          (device_mismatch signature.key_id (or_empty pinned.device_id) actor.1)
      signed_at ←
          done_or (codec.parse_time signature.signed_at) (invalid_signed_at signature.signed_at)
      rebuilt ←
          rebuilt_payload request decision signature.payload_version
            (payload_input decision signature digest.0 actor.0 actor.1 signed_at)
      fail_if (not (rebuilt == signature.signing_payload)) signing_payload_mismatch
      map_failed signature_invalid
          (verify_payload codec p256 pinned.public_key rebuilt signature.signature)
      warnings ← time_warnings input signed_at
      done (record {
        request_id = decision.request_id;
        user_id = actor.0;
        device_id = actor.1;
        key_id = signature.key_id;
        option_id = decision.option_id;
        option_kind = decision.option_kind;
        request_digest = digest.0;
        digest_encoder = digest.1;
        signed_at = signed_at;
        warnings = warnings;
      })

-- ===== src/Proto/ValueSigning.antt =====
-- nod-proto/src/value_signing.rs: the digest of a request for a value, and the text of its answer that
-- is signed; and the signing functions together, as the server calls them.
use Prim.Native.String.{◌++◌}
use nod.Base.{
  String, Bool, true, false, not, List, [], ◌∷◌, Option, none, some, ltb, is_blank, trim, byte_len,
  bytes, if◌then◌else◌, map, ◌==◌, Checked, value, fault,
}
use nod.Base.Tried.{Tried, done, failed, ◌>>=◌, ◌>>◌, fail_if, done_or, map_failed}
use nod.Proto.Answer.{AnswerValue, AnswerChoice, AnswerField, Check, valid, invalid, validate}
use nod.Proto.Request.{Request, DecisionSigningInput, kind_str}
use nod.Proto.Json.{
  Json, string, array, object, items_of, members_of, option_json, canonical_value_json,
}
use nod.Proto.Signing.{
  Codec, P256, SigningError, invalid_value, invalid_recipient_commitment, error_text,
  bad_commitment, content_members, recipients_commitment, request_digest_v1,
  request_digest_legacy_structured_v2, request_digest_legacy_line_snapshot,
  decision_signing_payload, verify_payload,
}
use nod.Env.{Signing}

abbrev pub answer_json : AnswerValue → Json
answer_json (AnswerValue.choice id) =
    object (members_of (("kind", string "choice") ∷ ("choice_id", string id) ∷ []))
answer_json (AnswerValue.number decimal) =
    object (members_of (("kind", string "number") ∷ ("decimal", string decimal) ∷ []))
answer_json (AnswerValue.date date) =
    object (members_of (("kind", string "date") ∷ ("date", string date) ∷ []))
answer_json (AnswerValue.date_time instant) =
    object (members_of (("kind", string "date_time") ∷ ("instant", string instant) ∷ []))

abbrev choice_json : AnswerChoice → Json
choice_json c = object (members_of (("id", string c.id) ∷ ("label", string c.label) ∷ []))

abbrev labelled_json : String → String → AnswerValue → Json
labelled_json kind label default = object (
    members_of
      (("kind", string kind) ∷ ("label", string label) ∷ ("default", answer_json default) ∷ []))

abbrev pub answer_field_json : AnswerField → Json
answer_field_json (AnswerField.choice label choices default) = object (
    members_of (
      ("kind", string "choice")
      ∷ ("label", string label)
      ∷ ("choices", array (items_of (map choice_json choices)))
      ∷ ("default", answer_json default)
      ∷ []))
answer_field_json (AnswerField.number label default) = labelled_json "number" label default
answer_field_json (AnswerField.date label default) = labelled_json "date" label default
answer_field_json (AnswerField.date_time label default) = labelled_json "date_time" label default

abbrev check_value : Check → Tried SigningError (Unit {0})
check_value valid = done tt
check_value (invalid e) = failed (invalid_value e)

-- `input.text.map(str::trim).filter(|v| !v.is_empty())`.
unfoldable pub trimmed : Option String → Option String
unfolding trim
trimmed none = none
trimmed (some text) = if is_blank (trim text) then none else some (trim text)

abbrev too_long : Option String → Bool
too_long none = false
too_long (some text) = ltb 16384 (byte_len text)

abbrev with_member : List (String × Json) → String × Json → List (String × Json)
with_member [] e = e ∷ []
with_member (m ∷ ms) e = m ∷ with_member ms e

module _ (codec : Codec) where
  unfoldable pub value_digest_of_members :
      List (String × Json) → String → AnswerField → String → Tried SigningError String
  unfolding validate canonical_value_json
  value_digest_of_members members commitment field version = do
    fail_if (bad_commitment commitment) invalid_recipient_commitment
    check_value (validate codec.json_len field)
    canonical ← map_failed invalid_value (
        canonical_value_json codec.json_text
          (object (members_of (with_member members ("answer_field", answer_field_json field)))))
    done (codec.hex (codec.sha256 (bytes (version ++ "\n" ++ canonical ++ "\n"))))

  unfoldable pub value_request_digest_with_version :
      Request → String → AnswerField → String → Tried SigningError String
  unfolding value_digest_of_members
  value_request_digest_with_version request commitment field version =
      value_digest_of_members (content_members codec.show_time request commitment) commitment field
        version

  unfoldable pub value_request_digest : Request → String → AnswerField → Tried SigningError String
  unfolding value_request_digest_with_version
  value_request_digest request commitment field =
      value_request_digest_with_version request commitment field "nod-request-v2"

  unfoldable pub value_request_digest_legacy_v3 :
      Request → String → AnswerField → Tried SigningError String
  unfolding value_request_digest_with_version
  value_request_digest_legacy_v3 request commitment field =
      value_request_digest_with_version request commitment field "nod-request-v3"

  unfoldable pub value_request_digest_for_version :
      Request → String → String → AnswerField → Tried SigningError (Option String)
  unfolding value_request_digest value_request_digest_legacy_v3
  value_request_digest_for_version request version commitment field =
      if version == "nod-request-v2"
      then (do digest ← value_request_digest request commitment field; done (some digest))
      else if version == "nod-request-v3"
      then (do digest ← value_request_digest_legacy_v3 request commitment field; done (some digest))
      else done none

  unfoldable pub decision_signing_payload_v2 :
      DecisionSigningInput → AnswerValue → Tried SigningError String
  unfolding trimmed canonical_value_json
  decision_signing_payload_v2 input answer = do
    signed_at ← done_or (codec.parse_time input.signed_at) (invalid_value "invalid signed_at")
    fail_if (not (codec.show_time signed_at == input.signed_at))
        (invalid_value "noncanonical signed_at")
    let text = trimmed input.text
    fail_if (too_long text) (invalid_value "notes exceed 16384 bytes")
    canonical ← map_failed invalid_value (
        canonical_value_json codec.json_text (
          object (
            members_of (
              ("request_id", string input.request_id)
              ∷ ("request_digest", string input.request_digest)
              ∷ ("option_id", string input.option_id)
              ∷ ("option_kind", string (kind_str input.option_kind))
              ∷ ("user_id", string input.user_id)
              ∷ ("device_id", string input.device_id)
              ∷ ("key_id", string input.key_id)
              ∷ ("nonce", string input.nonce)
              ∷ ("signed_at", string input.signed_at)
              ∷ ("text", option_json text)
              ∷ ("answer_value", answer_json answer)
              ∷ []))))
    done ("nod-decision-v2\n" ++ canonical ++ "\n")

-- `to_string()` of an error.
abbrev pub shown : Tried SigningError String → Checked String
shown (done text) = value text
shown (failed e) = fault (error_text e)

abbrev pub is_done {ℓ} : {A : Type ℓ} → Tried SigningError A → Bool
is_done (done a) = true
is_done (failed e) = false

-- The signing functions of nod-proto, as the server's handlers take them.
unfoldable pub signing_of : Codec → P256 → Signing
signing_of codec p256 = record {
  recipients_commitment = λ recipients salt. shown (recipients_commitment codec recipients salt);
  request_digest_v1 = λ request commitment. shown (request_digest_v1 codec request commitment);
  request_digest_legacy_structured_v2 =
      λ request commitment. shown (request_digest_legacy_structured_v2 codec request commitment);
  request_digest_legacy_line_snapshot =
      λ request. shown (request_digest_legacy_line_snapshot codec request);
  value_request_digest =
      λ request commitment field. shown (value_request_digest codec request commitment field);
  value_request_digest_legacy_v3 = λ request commitment field.
      shown (value_request_digest_legacy_v3 codec request commitment field);
  decision_signing_payload = λ input. decision_signing_payload codec input;
  decision_signing_payload_v2 =
      λ input answer. shown (decision_signing_payload_v2 codec input answer);
  verify_payload = λ public_key payload signature.
      is_done (verify_payload codec p256 public_key payload signature);
}

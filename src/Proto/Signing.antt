-- ===== src/Proto/Signing.antt =====
-- nod-proto/src/signing.rs: the texts that are hashed and signed, and the P-256 calls. sha2, hex,
-- serde_json, chrono, base64 and p256 are the two records of library functions.
pub mod Payload
pub mod Keys
use Prim.Native.String.{◌++◌}
use nod.Base.{
  ℕ, String, Bool, true, false, not, ◌&&◌, ◌||◌, List, [], ◌∷◌, Option, none, some, leb, eqb,
  if◌then◌else◌, map, ◌==◌, every_char, byte_len, bytes, length,
}
use nod.Base.Tried.{Tried, done, failed, ◌>>=◌, ◌>>◌, fail_if, done_or, map_failed}
use nod.Proto.Answer.{AnswerField}
use nod.Proto.Request.{
  Request, RequestOption, CardField, CardLink, RequestNotification, DecisionSigningInput, kind_str,
  resolution_str,
}
use nod.Proto.Json.{Json, null, bool, string, array, object, items_of, members_of, option_json}

pub record Codec : Type 0 where
  -- `Sha256::digest`, `hex::encode`.
  pub sha256 : List ℕ → List ℕ
  pub hex : List ℕ → String
  -- `serde_json::to_string`, and `to_vec(field).len()`.
  pub json_text : Json → Tried String String
  pub json_len : AnswerField → ℕ
  -- `to_rfc3339_opts` with milliseconds, and `parse_from_rfc3339`.
  pub show_time : ℕ → String
  pub parse_time : String → Option ℕ
  -- `URL_SAFE_NO_PAD`.
  pub encode_base64 : List ℕ → String
  pub decode_base64 : String → Option (List ℕ)

-- What the source calls of p256.
pub record P256 : Type 1 where
  pub SigningKey : Type 0
  pub VerifyingKey : Type 0
  pub Signature : Type 0
  pub signing_key_from_slice : List ℕ → Option SigningKey
  pub signing_key_bytes : SigningKey → List ℕ
  pub verifying_key : SigningKey → VerifyingKey
  -- `to_encoded_point(false)`.
  pub uncompressed : VerifyingKey → List ℕ
  pub from_sec1_bytes : List ℕ → Option VerifyingKey
  pub from_der : List ℕ → Option Signature
  pub to_der : Signature → List ℕ
  pub sign : SigningKey → List ℕ → Signature
  pub verify : VerifyingKey → List ℕ → Signature → Bool

pub data SigningError : Type 0 where
  invalid_value json_failed : String → SigningError
  invalid_private_key invalid_public_key invalid_signature_encoding signature_mismatch :
      SigningError
  invalid_recipient_commitment : SigningError

pub error_text : SigningError → String
error_text (invalid_value e) = "invalid value signing input: " ++ e
error_text (json_failed e) = "request serialization failed: " ++ e
error_text invalid_private_key = "invalid signing private key"
error_text invalid_public_key = "invalid signing public key"
error_text invalid_signature_encoding = "invalid signature encoding"
error_text signature_mismatch = "signature verification failed"
error_text invalid_recipient_commitment = "invalid recipient commitment"

abbrev pub request_digest_version : String
request_digest_version = "nod-request-v1"

abbrev pub legacy_structured_request_digest_version : String
legacy_structured_request_digest_version = "nod-request-v2"

abbrev pub or_empty : Option String → String
or_empty none = ""
or_empty (some s) = s

-- `join("\n")`.
abbrev pub join_lines : List String → String
join_lines [] = ""
join_lines (l ∷ []) = l
join_lines (l ∷ m ∷ ls) = l ++ "\n" ++ join_lines (m ∷ ls)

-- `join(",")`.
abbrev pub join_commas : List String → String
join_commas [] = ""
join_commas (l ∷ []) = l
join_commas (l ∷ m ∷ ls) = l ++ "," ++ join_commas (m ∷ ls)

-- What serde writes for the parts of a card. The members stand in the order of the source; a map of
-- serde_json puts them in its own order, which is left to `json_text`.
abbrev field_json : CardField → Json
field_json f = object (
    members_of
      (("label", string f.label) ∷ ("value", string f.value) ∷ ("style", option_json f.style) ∷ []))

abbrev link_json : CardLink → Json
link_json l = object (members_of (("label", string l.label) ∷ ("url", string l.url) ∷ []))

abbrev option_card_json : RequestOption → Json
option_card_json o = object (
    members_of (
      ("id", string o.id)
      ∷ ("label", string o.label)
      ∷ ("kind", string (kind_str o.kind))
      ∷ ("style", string o.style)
      ∷ ("requires_text", bool o.requires_text)
      ∷ ("text_placeholder", option_json o.text_placeholder)
      ∷ ("destructive", bool o.destructive)
      ∷ ("foreground", bool o.foreground)
      ∷ []))

abbrev notification_json : RequestNotification → Json
notification_json n = object (
    members_of (
      ("redact", bool n.redact)
      ∷ ("title", option_json n.title)
      ∷ ("body", option_json n.body)
      ∷ []))

abbrev pub optional_time : (ℕ → String) → Option ℕ → Option String
optional_time show none = none
optional_time show (some t) = some (show t)

abbrev pub fields_json : List CardField → Json
fields_json fs = array (items_of (map field_json fs))

abbrev pub links_json : List CardLink → Json
links_json ls = array (items_of (map link_json ls))

abbrev pub options_json : List RequestOption → Json
options_json os = array (items_of (map option_card_json os))

abbrev pub is_hex_digit : ℕ → Bool
is_hex_digit c = leb b'0' c && leb c b'9' || leb b'a' c && leb c b'f' || leb b'A' c && leb c b'F'

-- `commitment.len() != 64 || !commitment.bytes().all(|b| b.is_ascii_hexdigit())`.
abbrev pub bad_commitment : String → Bool
bad_commitment commitment =
    not (eqb (byte_len commitment) 64) || not (every_char is_hex_digit commitment)

-- The members that the ordinary and the value content have in common.
abbrev pub content_members : (ℕ → String) → Request → String → List (String × Json)
content_members show_time request commitment =
    ("request_id", string request.id)
    ∷ ("channel_id", string request.channel_id)
    ∷ ("recipients_commitment", string commitment)
    ∷ ("decision_resolution", string (resolution_str request.decision_resolution))
    ∷ ("title", string request.title)
    ∷ ("summary", string request.summary)
    ∷ ("body_markdown", string request.body_markdown)
    ∷ ("fields", fields_json request.fields)
    ∷ ("links", links_json request.links)
    ∷ ("image_url", option_json request.image_url)
    ∷ ("notification", notification_json request.notification)
    ∷ ("dedupe_key", option_json request.dedupe_key)
    ∷ ("expires_at", option_json (optional_time show_time request.expires_at))
    ∷ ("created_at", string (show_time request.created_at))
    ∷ ("callback_url", option_json request.callback_url)
    ∷ ("options", options_json request.options)
    ∷ []

-- `[UNCOMPRESSED_P256_PUBLIC_KEY_PREFIX, ..] if bytes.len() == UNCOMPRESSED_P256_PUBLIC_KEY_LENGTH`.
abbrev pub is_uncompressed : List ℕ → Bool
is_uncompressed [] = false
is_uncompressed (b ∷ bs) = eqb b 4 && eqb (length (b ∷ bs)) 65

module _ (codec : Codec) where
  unfoldable pub sha256_hex : String → String
  sha256_hex text = codec.hex (codec.sha256 (bytes text))

  -- The canonical text of an ordinary decision.
  unfoldable pub decision_signing_payload : DecisionSigningInput → String
  decision_signing_payload input = join_lines (
      "nod-decision-v1"
      ∷ ("request_id:" ++ input.request_id)
      ∷ ("request_digest:" ++ input.request_digest)
      ∷ ("option_id:" ++ input.option_id)
      ∷ ("option_kind:" ++ kind_str input.option_kind)
      ∷ ("user_id:" ++ input.user_id)
      ∷ ("device_id:" ++ input.device_id)
      ∷ ("key_id:" ++ input.key_id)
      ∷ ("nonce:" ++ input.nonce)
      ∷ ("signed_at:" ++ input.signed_at)
      ∷ ("text_sha256:" ++ sha256_hex (or_empty input.text))
      ∷ ""
      ∷ [])

  abbrev json_string : Json → Tried SigningError String
  json_string j = map_failed json_failed (codec.json_text j)

  unfoldable pub request_digest_legacy_line_snapshot : Request → Tried SigningError String
  unfolding sha256_hex
  request_digest_legacy_line_snapshot request = do
    fields ← json_string (fields_json request.fields)
    links ← json_string (links_json request.links)
    options ← json_string (options_json request.options)
    done (
        sha256_hex (
          join_lines (
            "nod-request-v1"
            ∷ ("request_id:" ++ request.id)
            ∷ ("channel_id:" ++ request.channel_id)
            ∷ ("recipients:" ++ join_commas request.recipients)
            ∷ ("decision_resolution:" ++ resolution_str request.decision_resolution)
            ∷ ("title_sha256:" ++ sha256_hex request.title)
            ∷ ("summary_sha256:" ++ sha256_hex request.summary)
            ∷ ("body_markdown_sha256:" ++ sha256_hex request.body_markdown)
            ∷ ("fields_sha256:" ++ sha256_hex fields)
            ∷ ("links_sha256:" ++ sha256_hex links)
            ∷ ("image_url:" ++ or_empty request.image_url)
            ∷ ("dedupe_key:" ++ or_empty request.dedupe_key)
            ∷ ("expires_at:" ++ or_empty (optional_time codec.show_time request.expires_at))
            ∷ ("created_at:" ++ codec.show_time request.created_at)
            ∷ ("options_sha256:" ++ sha256_hex options)
            ∷ ""
            ∷ [])))

  unfoldable pub recipients_commitment : List String → String → Tried SigningError String
  unfolding sha256_hex
  recipients_commitment recipients salt = do
    encoded ←
        json_string (array (items_of (string salt ∷ array (items_of (map string recipients)) ∷ [])))
    done (sha256_hex ("nod-recipients-v2\n" ++ encoded))

  unfoldable pub digest_of_members :
      List (String × Json) → String → String → Tried SigningError String
  unfolding sha256_hex
  digest_of_members members commitment version = do
    fail_if (bad_commitment commitment) invalid_recipient_commitment
    text ← json_string (object (members_of members))
    done (sha256_hex (version ++ "\n" ++ text ++ "\n"))

  unfoldable pub structured_request_digest : Request → String → String → Tried SigningError String
  unfolding digest_of_members
  structured_request_digest request commitment version =
      digest_of_members (content_members codec.show_time request commitment) commitment version

  unfoldable pub request_digest_v1 : Request → String → Tried SigningError String
  unfolding structured_request_digest
  request_digest_v1 request commitment =
      structured_request_digest request commitment request_digest_version

  unfoldable pub request_digest_legacy_structured_v2 : Request → String → Tried SigningError String
  unfolding structured_request_digest
  request_digest_legacy_structured_v2 request commitment =
      structured_request_digest request commitment legacy_structured_request_digest_version

  unfoldable pub request_digest_for_version :
      Request → String → String → Tried SigningError (Option String)
  unfolding request_digest_v1 request_digest_legacy_structured_v2
  request_digest_for_version request version commitment =
      if version == request_digest_version
      then (do digest ← request_digest_v1 request commitment; done (some digest))
      else if version == legacy_structured_request_digest_version
      then (do digest ← request_digest_legacy_structured_v2 request commitment; done (some digest))
      else done none

  -- The calls of P-256.
  module _ (p256 : P256) where
    unfoldable pub encode_public_key : p256.SigningKey → String
    encode_public_key key = codec.encode_base64 (p256.uncompressed (p256.verifying_key key))

    unfoldable pub decode_signing_key : String → Tried SigningError p256.SigningKey
    decode_signing_key private_key = do
      key ← done_or (codec.decode_base64 private_key) invalid_private_key
      done_or (p256.signing_key_from_slice key) invalid_private_key

    unfoldable pub public_key_for : String → Tried SigningError String
    unfolding encode_public_key decode_signing_key
    public_key_for private_key = do
      key ← decode_signing_key private_key
      done (encode_public_key key)

    unfoldable pub sign_payload : String → String → Tried SigningError String
    unfolding decode_signing_key
    sign_payload private_key payload = do
      key ← decode_signing_key private_key
      done (codec.encode_base64 (p256.to_der (p256.sign key (bytes payload))))

    unfoldable pub decode_public_key : String → Tried SigningError (List ℕ)
    decode_public_key public_key = do
      key ← done_or (codec.decode_base64 public_key) invalid_public_key
      fail_if (not (is_uncompressed key)) invalid_public_key
      done key

    unfoldable pub verify_payload : String → String → String → Tried SigningError (Unit {0})
    unfolding decode_public_key
    verify_payload public_key payload signature = do
      key ← decode_public_key public_key
      verifying_key ← done_or (p256.from_sec1_bytes key) invalid_public_key
      encoded ← done_or (codec.decode_base64 signature) invalid_signature_encoding
      decoded ← done_or (p256.from_der encoded) invalid_signature_encoding
      fail_if (not (p256.verify verifying_key (bytes payload) decoded)) signature_mismatch

    unfoldable pub validate_public_key : String → Tried SigningError (Unit {0})
    unfolding decode_public_key
    validate_public_key public_key = do key ← decode_public_key public_key; done tt

-- `answer_field`, or the tag of the older value cards.
abbrev is_version : String → Option String → Bool
is_version v none = false
is_version v (some w) = w == v

unfoldable pub is_value_request : Bool → Option String → Bool
is_value_request answer_field_present signing_version =
    answer_field_present || is_version "nod-request-v3" signing_version

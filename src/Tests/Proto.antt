-- ===== src/Tests/Proto.antt =====
-- Runs of the signing functions and of the offline check, with a codec and a signature scheme that compute.
use Prim.Native.Char.{code}
use Prim.Native.String.{String}
use nod.Base.{
  ℕ, zero, suc, ◌+◌, ◌≡◌, refl, ap, ◌∙◌, true, none, some, List, [], ◌∷◌, eqb, if◌then◌else◌, ok,
  Result, arith, ◌≤◌, not, char_count,
}
use nod.Base.Tried.{done}
use nod.Proto.Request.{
  OptionKind-discrete, Request, approve, DecisionSigningInput, Decision, kind_str,
}
use nod.Proto.Signing.{
  Codec, P256, sha256_hex, decision_signing_payload, or_empty, decode_signing_key, public_key_for,
  sign_payload, verify_payload, decode_public_key, structured_request_digest, digest_of_members,
  request_digest_v1, request_digest_legacy_structured_v2, request_digest_legacy_line_snapshot,
  recipients_commitment,
}
use nod.Proto.Signing.Payload.{HasLines, payload_binds_decision}
use nod.Proto.Signing.Keys.{IsLawful, signed_payload_verifies}
use nod.Proto.ValueSigning.{signing_of, value_request_digest_with_version}
use nod.Proto.Answer.{AnswerField, AnswerValue}
use nod.Proto.Receipt.{
  ReceiptVerificationInput, VerifiedReceipt, legacy_line_snapshot, verify_decision_receipt,
}
use nod.Proto.Receipt.Sound.{Vouched, receipt_is_genuine}
use nod.Proto.Preview.{notification_preview}
use nod.Proto.Preview.Hiding.{redaction_hides_content}
use nod.Env.{Env}
use nod.Store.{Db}
use nod.Model.{DecisionRequest, to_wire}
use nod.Requests.Read.{project_request_for_user}
use nod.Requests.Read.Digest.{view_has_the_digest}
use nod.Requests.Create.{create_request}
use nod.Requests.Decide.{DecisionSubmission, record_decision, decision_of}
use nod.Requests.Decide.Inversion.{Stages}
use nod.Requests.Receipt.{env_of}
use nod.Requests.Receipt.Agreement.{receipt_input, recorded_decision_verifies}
use nod.Tests.Data.{empty, deploy, by_token, fresh1, signature1, phone, state, answer}
use nod.Tests.Requests.{handlers, card}

-- A number in strokes before a comma.
abbrev put_number : ℕ → String → String
put_number zero rest = String.◌∷◌ "," rest
put_number (suc n) rest = String.◌∷◌ "1" (put_number n rest)

abbrev pub put_numbers : List ℕ → String
put_numbers [] = ""
put_numbers (n ∷ ns) = put_number n (put_numbers ns)

abbrev read_numbers : ℕ → String → List ℕ
read_numbers k String.[] = []
read_numbers k (String.◌∷◌ c s) =
    if eqb (code c) 44 then k ∷ read_numbers 0 s else read_numbers (suc k) s

read-put :
    (k n : ℕ) (rest : String) → read_numbers k (put_number n rest) ≡ (k + n) ∷ read_numbers 0 rest
read-put k zero rest = ap (λ m. m ∷ read_numbers 0 rest) (omega arith)
read-put k (suc n) rest = read-put (suc k) n rest ∙ ap (λ m. m ∷ read_numbers 0 rest) (omega arith)

read-put_all : (ns : List ℕ) → read_numbers 0 (put_numbers ns) ≡ ns
read-put_all [] = refl
read-put_all (n ∷ ns) =
    read-put 0 n (put_numbers ns) ∙ rw (read-put_all ns) (ap (λ m. m ∷ ns) (omega arith))

abbrev pub zeros : ℕ → List ℕ
zeros zero = []
zeros (suc n) = 0 ∷ zeros n

abbrev pub hash : String
hash = "0000000000000000000000000000000000000000000000000000000000000000"

abbrev pub codec : Codec
codec = record {
  sha256 = λ bs. bs;
  hex = λ bs. hash;
  json_text = λ j. done "{}";
  json_len = λ f. 0;
  show_time = λ t. "1970-01-01T00:00:05.000Z";
  parse_time = λ s. some 5000;
  encode_base64 = put_numbers;
  decode_base64 = λ s. some (read_numbers 0 s);
}

-- A scheme whose signature is the message.
abbrev pub scheme : P256
scheme = record {
  SigningKey = List ℕ;
  VerifyingKey = Unit {0};
  Signature = List ℕ;
  signing_key_from_slice = λ bs. some bs;
  signing_key_bytes = λ k. k;
  verifying_key = λ k. tt;
  uncompressed = λ k. 4 ∷ zeros 64;
  from_sec1_bytes = λ bs. some tt;
  from_der = λ bs. some bs;
  to_der = λ s. s;
  sign = λ k message. message;
  verify = λ k message s. true;
}

scheme-IsLawful : IsLawful codec scheme
scheme-IsLawful = record {
  base64 = λ bs. ap some (read-put_all bs);
  key_shape = λ k. refl;
  key_read = λ k. refl;
  signature_read = λ s. refl;
  verifies = λ k message. refl;
}

signed_payload_verifies_example :
    (public_key : String) × (signature : String) × (public_key_for codec scheme "11,1,"
      ≡ done public_key)
    × (sign_payload codec scheme "11,1," "text" ≡ done signature)
    × (verify_payload codec scheme public_key "text" signature ≡ done tt)
unfolding decode_signing_key
signed_payload_verifies_example =
    signed_payload_verifies codec scheme "11,1," "text" (2 ∷ 1 ∷ []) scheme-IsLawful refl

abbrev input1 : DecisionSigningInput
input1 = record {
  request_id = "r1";
  request_digest = hash;
  option_id = "yes";
  option_kind = approve;
  user_id = "ann";
  device_id = "phone";
  key_id = "key";
  nonce = "n1\nsigned_at:never";
  signed_at = "1970-01-01T00:00:05.000Z";
  text = none;
}

input1-HasLines : HasLines input1
input1-HasLines = record {
  request_id = refl;
  request_digest = refl;
  option_id = refl;
  user_id = refl;
  device_id = refl;
  key_id = refl;
  signed_at = refl;
}

payload_binds_decision_example :
    (input1.request_id ≡ input1.request_id)
    × (input1.request_digest ≡ input1.request_digest)
    × (input1.option_id ≡ input1.option_id)
    × (input1.option_kind ≡ input1.option_kind)
    × (input1.user_id ≡ input1.user_id)
    × (input1.device_id ≡ input1.device_id)
    × (input1.key_id ≡ input1.key_id)
    × (input1.nonce ≡ input1.nonce)
    × (input1.signed_at ≡ input1.signed_at)
    × (sha256_hex codec (or_empty input1.text) ≡ sha256_hex codec (or_empty input1.text))
payload_binds_decision_example =
    payload_binds_decision codec input1 input1 (λ bs. refl) input1-HasLines input1-HasLines refl

-- The codec with one public key.
abbrev lenient : Codec
lenient = record codec { decode_base64 = λ s. some (4 ∷ zeros 64) }

abbrev yes_no_env : Env
yes_no_env = env_of lenient scheme (λ s. none) (λ r. "print") (λ f o. "print with origin")

abbrev signed_db : Db
signed_db = state empty (create_request yes_no_env empty 1000 fresh1 deploy by_token)

abbrev says_yes_signed : DecisionSubmission
says_yes_signed = record {
  request_id = "r1";
  option_id = "yes";
  actor_device = some phone;
  actor_user_id = some "ann";
  decision = record {
    answer_value = none;
    text = none;
    signature = some (record signature1 { request_digest = hash });
  };
}

abbrev signed_result : Result (DecisionRequest × Db)
signed_result = record_decision yes_no_env signed_db 2000 3000 "e2" says_yes_signed

abbrev after_signed : DecisionRequest
after_signed = answer card signed_result

signed_result-ok : signed_result ≡ ok (after_signed, state signed_db signed_result)
unfolding handlers signing_of recipients_commitment request_digest_v1
    request_digest_legacy_structured_v2 structured_request_digest digest_of_members
    request_digest_legacy_line_snapshot decision_signing_payload verify_payload decode_public_key
    sha256_hex
signed_result-ok = refl

recorded_decision_verifies_example :
    (t : Stages yes_no_env signed_db 2000 3000 "e2" says_yes_signed after_signed
      (state signed_db signed_result))
    × (receipt : VerifiedReceipt) × (verify_decision_receipt lenient scheme (
          receipt_input lenient scheme
            (λ s. none)
            (λ r. "print")
            (λ f o. "print with origin")
            signed_db
            2000
            3000
            "e2"
            says_yes_signed
            phone
            "key"
            "public"
            t.request
            (decision_of says_yes_signed t.option t.signature 3000)
            9000000
            none)
        ≡ done receipt)
recorded_decision_verifies_example =
    recorded_decision_verifies lenient scheme (λ s. none) (λ r. "print")
      (λ f o. "print with origin") signed_db 2000 3000 "e2" says_yes_signed phone "key" "public"
      9000000 none refl refl refl refl signed_result-ok

abbrev receipt_request : Request
receipt_request = to_wire yes_no_env card

abbrev receipt_payload : String
receipt_payload = decision_signing_payload codec (record input1 { nonce = "n1" })

abbrev receipt_decision : Decision
receipt_decision = record {
  answer_value = none;
  request_id = "r1";
  option_id = "yes";
  option_kind = approve;
  option_label = "Yes";
  text = none;
  actor_user_id = some "ann";
  actor_device_id = some "phone";
  signature = some (record {
    payload_version = none;
    key_id = "key";
    algorithm = "p256_ecdsa_sha256";
    nonce = "n1";
    signed_at = "1970-01-01T00:00:05Z";
    request_digest = hash;
    signing_payload = receipt_payload;
    signature = "signed";
    verified = true;
    public_key = none;
  });
  resolved_at = 3000;
}

abbrev receipt1 : VerifiedReceipt
receipt1 = record {
  request_id = "r1";
  user_id = "ann";
  device_id = "phone";
  key_id = "key";
  option_id = "yes";
  option_kind = approve;
  request_digest = hash;
  digest_encoder = legacy_line_snapshot;
  signed_at = 5000;
  warnings = [];
}

abbrev receipt_input1 : ReceiptVerificationInput
receipt_input1 = record {
  request = receipt_request;
  decision = receipt_decision;
  pinned_keys =
      record { user_id = "ann"; device_id = none; key_id = "key"; public_key = "pinned" } ∷ [];
  now = 6000;
  max_clock_skew = none;
  strict_time = true;
}

receipt1-done : verify_decision_receipt lenient scheme receipt_input1 ≡ done receipt1
unfolding handlers verify_decision_receipt OptionKind-discrete signing_of
    request_digest_legacy_line_snapshot decision_signing_payload verify_payload sha256_hex kind_str
receipt1-done = refl

receipt_is_genuine_example : Vouched lenient scheme receipt_input1 receipt1
receipt_is_genuine_example = receipt_is_genuine lenient scheme receipt_input1 receipt1-done

view_has_the_digest_example :
    (structured_request_digest codec
        (to_wire yes_no_env (project_request_for_user card "ann"))
        hash
        "nod-request-v1"
      ≡ structured_request_digest codec (to_wire yes_no_env card) hash "nod-request-v1")
    × (value_request_digest_with_version codec
          (to_wire yes_no_env (project_request_for_user card "ann"))
          hash
          (AnswerField.number "Count" (AnswerValue.number "1"))
          "nod-request-v1"
        ≡ value_request_digest_with_version codec
            (to_wire yes_no_env card)
            hash
            (AnswerField.number "Count" (AnswerValue.number "1"))
            "nod-request-v1")
view_has_the_digest_example =
    view_has_the_digest codec yes_no_env card "ann" hash "nod-request-v1"
      (AnswerField.number "Count" (AnswerValue.number "1"))

redaction_hides_content_example :
    (char_count (notification_preview receipt_request).title ≤ 200)
    × (char_count (notification_preview receipt_request).body ≤ 500)
    × ((notification_preview receipt_request).allow_image ≡ not receipt_request.notification.redact)
    × (notification_preview (record receipt_request {
      notification = record receipt_request.notification { redact = true };
    })
        ≡ notification_preview (record receipt_request {
          title = "Other";
          summary = "Other";
          body_markdown = "Other";
          fields = [];
          links = [];
          image_url = none;
          options = [];
          notification = record receipt_request.notification { redact = true };
        }))
redaction_hides_content_example =
    redaction_hides_content receipt_request "Other" "Other" "Other" [] [] none []

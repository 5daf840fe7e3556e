-- ===== src/Requests/Signature/Inversion.antt =====
-- What a signature that was accepted went through.
use nod.Base.{
  guard_ok, append_nil, ℕ, ◌≡◌, sym, ap, ◌∙◌, String, Bool, true, false, not, ◌&&◌, ◌||◌, Option,
  none, some, List, [], ◌∷◌, ◌++◌, ◌==◌, any, is_some, is_blank, trim, ltb, byte_len, ok, ok_or,
  ok_or-eq-ok, bind_ok, bad_request, forbidden, Bool-cases, inl, inr, arith, eq_iff,
}
use nod.Proto.Answer.{AnswerValue}
use nod.Proto.Request.{RequestOption, DecisionSignature, DecisionSignatureRecord}
use nod.Env.{Env}
use nod.Store.{Db, NonceRow}
use nod.Model.{DecisionRequest, Device}
use nod.Requests.Signature.{
  verified_decision_signature, verify_value_decision_signature, insert_decision_nonce,
  digest_candidates, signing_payload, signing_input, or_default, default_algorithm, is_filled,
  signature_record,
}

abbrev pub is_nonce : String → String → String → NonceRow → Bool
is_nonce device_id key_id nonce r =
    (r.device_id == device_id) && (r.key_id == key_id) && (r.nonce == nonce)

pub insert_decision_nonce-eq-ok :
    (db : Db) (now : ℕ) (device_id key_id nonce : String) {noted : Db}
    → insert_decision_nonce db now device_id key_id nonce ≡ ok noted
    → (any (is_nonce device_id key_id nonce) db.nonces ≡ false)
      × (noted ≡ record db {
        nonces =
            db.nonces
            ++ record { device_id = device_id; key_id = key_id; nonce = nonce; used_at = now } ∷ [];
      })
unfolding insert_decision_nonce
insert_decision_nonce-eq-ok db now device_id key_id nonce h =
    elim (Bool-cases (any (is_nonce device_id key_id nonce) db.nonces)) [
      | inl e ↦ absurd (cc (rw e at h))
      | inr e ↦ (e, cc (rw e at h))
    ]

-- The key, the digest and the text that the signature is over.
pub record IsSigned (env : Env) (request : DecisionRequest) (option : RequestOption)
    (actor : Device) (text : Option String) (s : DecisionSignature) (answer : Option AnswerValue)
    : Type 0 where
  pub public_key : String
  pub signed_at : ℕ
  pub candidates : List String
  pub payload : String
  pub own_key : actor.signing_public_key ≡ some public_key
  pub own_key_id : actor.signing_key_id ≡ some s.key_id
  pub issued : digest_candidates env request ≡ ok candidates
  pub of_snapshot : any (λ c. c == s.request_digest) candidates ≡ true
  pub with_p256 : s.algorithm ≡ default_algorithm
  pub at_time : env.parse_time s.signed_at ≡ some signed_at
  pub covers :
      signing_payload env request
        (signing_input request option actor text s (env.show_time signed_at))
        s
        answer
      ≡ ok payload
  pub verified : env.verify_payload public_key payload s.signature ≡ true

pub verify-IsSigned :
    (env : Env) (request : DecisionRequest) (option : RequestOption) (actor : Device)
    (text : Option String) (s : DecisionSignature) (answer : Option AnswerValue)
    {p : String × String}
    → verify_value_decision_signature env request option actor text s answer ≡ ok p
    → (signed : IsSigned env request option actor text s answer) × (p
        ≡ (s.request_digest, signed.payload))
unfolding verify_value_decision_signature
verify-IsSigned env request option actor text s answer h =
    bind_ok
      (ok_or actor.signing_key_id (bad_request "device does not have a registered signing key")) _ h
      λ key_id k1 h1.
        bind_ok
          (ok_or actor.signing_public_key
            (bad_request "device does not have a registered signing key"))
          _ h1
          λ public_key k2 h2.
            guard_ok
              (not (or_default actor.signing_key_algorithm == default_algorithm)
                || not (s.algorithm == default_algorithm))
              (bad_request "unsupported decision signature algorithm") _ h2
              λ algorithm h3.
                guard_ok (not (s.key_id == key_id))
                  (bad_request "decision signature key_id does not match this device") _ h3
                  λ same h4.
                    guard_ok (is_blank (trim s.nonce) || ltb 160 (byte_len s.nonce))
                      (bad_request "decision signature nonce is required") _ h4
                      λ nonce h5.
                        bind_ok (digest_candidates env request) _ h5 λ candidates issued h6.
                          guard_ok (not (any (λ c. c == s.request_digest) candidates))
                            (bad_request
                              "decision signature request_digest does not match the request snapshot")
                            _ h6
                            λ snapshot h7.
                              bind_ok
                                (ok_or (env.parse_time s.signed_at)
                                  (bad_request "decision signature signed_at is invalid"))
                                _ h7
                                λ signed_at parsed h8. bind_ok _ _ h8 λ payload covers h9.
                                  guard_ok (not (env.verify_payload public_key payload s.signature))
                                    forbidden _ h9
                                    λ verified h10. (
                                      record {
                                        public_key = public_key;
                                        signed_at = signed_at;
                                        candidates = candidates;
                                        payload = payload;
                                        own_key =
                                            ok_or-eq-ok actor.signing_public_key
                                              (bad_request
                                                "device does not have a registered signing key")
                                              k2;
                                        own_key_id =
                                            rw ((eq_iff s.key_id key_id).0 (ground (arith, same))) (
                                              ok_or-eq-ok actor.signing_key_id
                                                (bad_request
                                                  "device does not have a registered signing key")
                                                k1);
                                        issued = issued;
                                        of_snapshot = ground (arith, snapshot);
                                        with_p256 =
                                            (eq_iff s.algorithm default_algorithm).0
                                              (ground (arith, algorithm));
                                        at_time =
                                            ok_or-eq-ok (env.parse_time s.signed_at)
                                              (bad_request
                                                "decision signature signed_at is invalid")
                                              parsed;
                                        covers = covers;
                                        verified = ground (arith, verified);
                                      },
                                      cc h10,
                                    )

-- The stages behind a device's decision.
pub record Signs (env : Env) (db : Db) (now : ℕ) (request : DecisionRequest)
    (option : RequestOption) (actor : Device) (text : Option String)
    (provided : Option DecisionSignature) (answer : Option AnswerValue)
    (stored : Option DecisionSignatureRecord) (noted : Db) : Type 0 where
  pub signature : DecisionSignature
  pub given : provided ≡ some signature
  pub is_signed : IsSigned env request option actor text signature answer
  pub recorded :
      stored ≡ some (signature_record actor signature signature.request_digest is_signed.payload)
  pub is_new : any (is_nonce actor.id signature.key_id signature.nonce) db.nonces ≡ false
  pub shape : noted ≡ record db {
    nonces =
        db.nonces
        ++ record {
          device_id = actor.id;
          key_id = signature.key_id;
          nonce = signature.nonce;
          used_at = now;
        }
          ∷ [];
  }

pub verified-Signs :
    (env : Env) (db : Db) (now : ℕ) (request : DecisionRequest) (option : RequestOption)
    (actor : Device) (text : Option String) (provided : Option DecisionSignature)
    (answer : Option AnswerValue) {p : Option DecisionSignatureRecord × Db}
    → verified_decision_signature env db now request option (some actor) text provided answer ≡ ok p
    → Signs env db now request option actor text provided answer p.0 p.1
unfolding verified_decision_signature
verified-Signs env db now request option actor text provided answer {p} h =
    guard_ok (not (is_filled actor.signing_public_key && is_filled actor.signing_key_id))
      (bad_request "device does not have a registered signing key") _ h
      λ filled h1.
        bind_ok (ok_or provided (bad_request "signed decision payload is required")) _ h1
          λ signature given h2.
            bind_ok (verify_value_decision_signature env request option actor text signature answer)
              _ h2
              λ digest signed h3.
                bind_ok (insert_decision_nonce db now actor.id signature.key_id signature.nonce) _
                  h3
                  λ noted inserted h4.
                    let proof =
                      verify-IsSigned env request option actor text signature answer signed in
                    let last : noted ≡ p.1 = cc h4 in
                    let written : some (signature_record actor signature digest.0 digest.1) ≡ p.0 =
                      cc h4 in
                    let row =
                      insert_decision_nonce-eq-ok db now actor.id signature.key_id signature.nonce
                        inserted in
                    record {
                      signature = signature;
                      given =
                          ok_or-eq-ok provided (bad_request "signed decision payload is required")
                            given;
                      is_signed = proof.0;
                      recorded =
                          sym written
                          ∙ ap (λ x. some (signature_record actor signature x.0 x.1)) proof.1;
                      is_new = row.0;
                      shape = rw (← last) row.1;
                    }

-- Of the database, the check of a signature changes the nonces only.
pub verified-nonces :
    (env : Env) (db : Db) (now : ℕ) (request : DecisionRequest) (option : RequestOption)
    (actor : Option Device) (text : Option String) (provided : Option DecisionSignature)
    (answer : Option AnswerValue) {p : Option DecisionSignatureRecord × Db}
    → verified_decision_signature env db now request option actor text provided answer ≡ ok p
    → (added : List NonceRow) × (p.1 ≡ record db { nonces = db.nonces ++ added })
unfolding verified_decision_signature
verified-nonces env db now request option none text provided answer h =
    guard_ok (is_some provided) (bad_request "decision signatures require a device actor") _ h
      λ unsigned h1. ([], rw append_nil (cc h1))
verified-nonces env db now request option (some actor) text provided answer h =
    (_, (verified-Signs env db now request option actor text provided answer h).shape)

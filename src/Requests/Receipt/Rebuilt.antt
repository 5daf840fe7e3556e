-- ===== src/Requests/Receipt/Rebuilt.antt =====
-- The text that the offline check rebuilds of a decision is the one that the server checked.
use nod.Base.{
  ◌≡◌, refl, ap, ◌∙◌, inl, inr, String, true, false, not, ◌&&◌, ◌||◌, Option, none, some,
  Bool-cases, Option-cases, arith, eq_refl, ◌==◌, is_some, is_blank, ok, map_err, bad_request,
  bind_ok, guard_ok, then_ok, ok_or, ok_or-eq-ok,
}
use nod.Base.Tried.{Tried, done, failed, map_failed}
use nod.Proto.Answer.{AnswerValue}
use nod.Proto.Request.{
  CreateDecisionRequest, Request, Decision, DecisionSignature, DecisionSigningInput,
}
use nod.Proto.Signing.{Codec, P256, SigningError, decision_signing_payload}
use nod.Proto.ValueSigning.{signing_of, shown, is_done, decision_signing_payload_v2}
use nod.Proto.Receipt.{rebuilt_payload, payload_failed}
use nod.Env.{Url, Origin}
use nod.Model.{DecisionRequest, to_wire}
use nod.Requests.Signature.{is_text, signing_payload}
use nod.Requests.Receipt.{env_of}
use nod.Requests.Receipt.Stamped.{to_wire-options}

is_some-none {ℓ} : {A : Type ℓ} (o : Option A) → is_some o ≡ false → o ≡ none
is_some-none none h = refl
is_some-none (some a) h = absurd (cc h)

shown-ok :
    (t : Tried SigningError String) {text : String}
    → map_err bad_request (shown t) ≡ ok text
    → t ≡ done text
shown-ok (done a) h = cc h
shown-ok (failed e) h = absurd (cc h)

rebuilt_ordinary :
    (codec : Codec) (wire : Request) (decision : Decision) (version : Option String)
    (input : DecisionSigningInput)
    → wire.answer_field ≡ none
    → decision.answer_value ≡ none
    → version ≡ none
    → rebuilt_payload codec wire decision version input
      ≡ done (decision_signing_payload codec input)
unfolding rebuilt_payload
rebuilt_ordinary codec wire decision version input f a v = rw (v, rebuilt_payload, a, f) refl

rebuilt_valued :
    (codec : Codec) (wire : Request) (decision : Decision) (version : Option String)
    (input : DecisionSigningInput) (answer : AnswerValue)
    → decision.answer_value ≡ some answer
    → is_text version "nod-decision-v2" ≡ true
    → rebuilt_payload codec wire decision version input
      ≡ map_failed payload_failed (decision_signing_payload_v2 codec input answer)
unfolding rebuilt_payload
rebuilt_valued codec wire decision none input answer a v = absurd (cc v)
rebuilt_valued codec wire decision (some version) input answer a v = rw (v, a) refl

-- The checker rebuilds the text that the server checked the signature of.
pub rebuilt_payload_lem :
    (codec : Codec) (p256 : P256) (parse_url : String → Option Url)
    (fingerprint : CreateDecisionRequest → String) (origin_fingerprint : String → Origin → String)
    (request : DecisionRequest) (input : DecisionSigningInput) (provided : DecisionSignature)
    (decision : Decision) {payload : String}
    → signing_payload
        (env_of codec p256 parse_url fingerprint origin_fingerprint)
        request
        input
        provided
        decision.answer_value
      ≡ ok payload
    → rebuilt_payload codec
        (to_wire (env_of codec p256 parse_url fingerprint origin_fingerprint) request)
        decision
        provided.payload_version
        input
      ≡ done payload
unfolding signing_payload rebuilt_payload signing_of
rebuilt_payload_lem codec p256 parse_url fingerprint origin_fingerprint request input provided
      decision h =
    elim (Option-cases request.answer_field) [
      | inl n ↦
          guard_ok (is_some decision.answer_value || is_some provided.payload_version)
            (bad_request "ordinary request does not accept value payload") _ (rw n at h)
            λ bare h1.
              rebuilt_ordinary codec
                (to_wire (env_of codec p256 parse_url fingerprint origin_fingerprint) request)
                decision provided.payload_version input
                ((to_wire-options (env_of codec p256 parse_url fingerprint origin_fingerprint)
                    request).1
                  ∙ n)
                (is_some-none decision.answer_value (ground (arith, bare)))
                (is_some-none provided.payload_version (ground (arith, bare)))
              ∙ cc h1
      | inr (field, f) ↦
          guard_ok
            (not (is_text provided.payload_version "nod-decision-v2")
              || not (provided.signed_at == input.signed_at))
            (bad_request "invalid value signature context") _ (rw f at h)
            λ versioned h1.
              bind_ok (ok_or decision.answer_value (bad_request "explicit answer_value required")) _
                h1
                λ answer given h2. then_ok _ _ h2 λ fits h3.
                  rebuilt_valued codec
                    (to_wire (env_of codec p256 parse_url fingerprint origin_fingerprint) request)
                    decision provided.payload_version input answer
                    (ok_or-eq-ok decision.answer_value
                      (bad_request "explicit answer_value required") given)
                    (ground (arith, versioned))
                  ∙ ap (map_failed payload_failed)
                      (shown-ok (decision_signing_payload_v2 codec input answer) h3)
    ]

pub own_device : (id : String) → not (id == id) ≡ false
own_device id = rw (eq_refl id) refl

pub names_this :
    (wire : Request) (id : String)
    → wire.id ≡ id
    → wire.request_id ≡ id
    → (not (id == wire.id) || not (is_blank wire.request_id) && not (wire.request_id == wire.id))
      ≡ false
names_this wire id e f =
    rw (e, f, eq_refl id)
      (elim (Bool-cases (is_blank id)) [ inl b ↦ rw b refl | inr b ↦ rw b refl ])

pub is_done-done : (t : Tried SigningError (Unit {0})) → is_done t ≡ true → t ≡ done tt
is_done-done (done tt) h = refl
is_done-done (failed e) h = absurd (cc h)

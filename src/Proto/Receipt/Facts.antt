-- ===== src/Proto/Receipt/Facts.antt =====
-- What the steps of the check in nod-proto/src/receipt.rs establish: the option, the digest and the text,
-- said without the steps.
use nod.Base.{
  ◌≡◌, refl, sym, ap, subst, ◌⊎◌, inl, inr, String, true, false, not, ◌&&◌, ◌||◌, List, [], ◌∷◌,
  Option, none, some, Memᴰ, All, All-find, All-self, All-append, find, find_sound, Bool-cases,
  Option-cases, arith, eq_iff, ◌==◌, is_blank, is_empty, is_some, map,
}
use nod.Base.Tried.{
  Tried, done, failed, ◌>>=◌, ◌>>◌, done_or, bind_done, pass_done, done_or-some, map_failed,
}
use nod.Proto.Answer.{AnswerField, AnswerValue}
use nod.Proto.Request.{
  Request, RequestOption, OptionKind, RequestSigningContext, Decision, DecisionSigningInput,
  dismiss,
}
use nod.Proto.Signing.{
  Codec, request_digest_v1, request_digest_legacy_structured_v2,
  request_digest_legacy_line_snapshot, decision_signing_payload,
}
use nod.Proto.ValueSigning.{
  value_request_digest, value_request_digest_legacy_v3, decision_signing_payload_v2,
}
use nod.Proto.Receipt.{
  ReceiptError, DigestEncoder, structured, valued, legacy_line_snapshot, legacy_structured,
  legacy_value, digest_failed, payload_failed, missing_signing_context, missing_answer_value,
  unexpected_answer_value, request_digest_mismatch, resolve_option, receipt_candidates,
  structured_candidates, match_request_digest, rebuilt_payload, known_context, commitment_of,
  names_another,
}

pub map_failed-done {ℓ κ μ} :
    {A : Type ℓ} {E : Type κ} {F : Type μ} (f : E → F) (t : Tried E A) {a : A}
    → map_failed f t ≡ done a
    → t ≡ done a
map_failed-done f (done a) h = cc h
map_failed-done f (failed e) h = absurd (cc h)

-- One of the request's options, or, for a request that is answered by neither an option nor a value,
-- the dismissal that it implies.
abbrev pub IsOffered : Request → String → RequestOption → Type 0
IsOffered request option_id option =
    (Memᴰ option request.options × (option.id ≡ option_id))
    ⊎ ((request.options ≡ [])
        × (request.answer_field ≡ none)
        × (option_id ≡ "dismiss")
        × (option.kind ≡ dismiss))

is_empty-nil {ℓ} : {A : Type ℓ} (xs : List A) → is_empty xs ≡ true → xs ≡ []
is_empty-nil [] h = refl
is_empty-nil (x ∷ xs) h = absurd (cc h)

is_some-none {ℓ} : {A : Type ℓ} (o : Option A) → is_some o ≡ false → o ≡ none
is_some-none none h = refl
is_some-none (some a) h = absurd (cc h)

abbrev kind_of : Tried ReceiptError RequestOption → OptionKind
kind_of (done o) = o.kind
kind_of (failed e) = dismiss

pub resolve_option-IsOffered :
    (request : Request) (option_id : String) {option : RequestOption}
    → resolve_option request option_id ≡ done option
    → IsOffered request option_id option
unfolding resolve_option
resolve_option-IsOffered request option_id {option} h =
    elim (Option-cases (find (λ o. o.id == option_id) request.options)) [
      | inr (o, e) ↦
          let same : o ≡ option = cc (rw (resolve_option, e) at h) in
          subst (IsOffered request option_id) same (
            inl (
              All-find (λ x. Memᴰ x request.options) (λ x. x.id == option_id) request.options
                  (All-self request.options) e,
              (eq_iff o.id option_id).0 (find_sound (λ x. x.id == option_id) request.options e),
            ))
      | inl e ↦
          elim (Bool-cases (
            is_empty request.options
            && not (is_some request.answer_field)
            && (option_id == "dismiss"))) [
              | inl t ↦ inr (
                is_empty-nil request.options (ground (arith, t)),
                is_some-none request.answer_field (ground (arith, t)),
                (eq_iff option_id "dismiss").0 (ground (arith, t)),
                sym (ap kind_of (rw (resolve_option, e, t) at h)),
              )
              | inr t ↦ absurd (cc (rw (resolve_option, e, t) at h))
            ]
    ]

-- The digest of the created request in the encoding that is named.
abbrev pub IsDigest : Codec → Request → String → DigestEncoder → Type 0
IsDigest codec request d structured =
    (request.answer_field ≡ none)
    × (signing : RequestSigningContext) × (request.signing ≡ some signing)
    × (request_digest_v1 codec request signing.recipients_commitment ≡ done d)
IsDigest codec request d legacy_structured =
    (request.answer_field ≡ none)
    × (signing : RequestSigningContext) × (request.signing ≡ some signing)
    × (request_digest_legacy_structured_v2 codec request signing.recipients_commitment ≡ done d)
IsDigest codec request d legacy_line_snapshot =
    (request.answer_field ≡ none) × (request_digest_legacy_line_snapshot codec request ≡ done d)
IsDigest codec request d valued =
    (field : AnswerField) × (signing : RequestSigningContext) × (request.answer_field ≡ some field)
    × (request.signing ≡ some signing)
    × (value_request_digest codec request signing.recipients_commitment field ≡ done d)
IsDigest codec request d legacy_value =
    (field : AnswerField) × (signing : RequestSigningContext) × (request.answer_field ≡ some field)
    × (request.signing ≡ some signing)
    × (value_request_digest_legacy_v3 codec request signing.recipients_commitment field ≡ done d)

commitment_of-some :
    (signing : Option RequestSigningContext) {commitment : String}
    → commitment_of signing ≡ some commitment
    → (context : RequestSigningContext) × (signing ≡ some context)
      × (context.recipients_commitment ≡ commitment)
commitment_of-some none h = absurd (cc h)
commitment_of-some (some context) h = (context, refl, cc h)

abbrev listed : Tried ReceiptError (List (String × DigestEncoder)) → List (String × DigestEncoder)
listed (done cs) = cs
listed (failed e) = []

after_done {ℓ} :
    {A : Type ℓ} (t : Tried ReceiptError (Unit {0})) (rest : Tried ReceiptError A) {a : A}
    → (t >> rest) ≡ done a
    → rest ≡ done a
after_done (done u) rest h = h
after_done (failed e) rest h = absurd (cc h)

module _ (codec : Codec) (request : Request) where
  abbrev AreDigests : List (String × DigestEncoder) → Type 0
  AreDigests cs = All (λ c. IsDigest codec request c.0 c.1) cs

  value_candidates_lem :
      (field : AnswerField) (signing : RequestSigningContext) {cs : List (String × DigestEncoder)}
      → request.answer_field ≡ some field
      → request.signing ≡ some signing
      → (do
        current ←
            map_failed digest_failed
              (value_request_digest codec request signing.recipients_commitment field)
        legacy ←
            map_failed digest_failed
              (value_request_digest_legacy_v3 codec request signing.recipients_commitment field)
        done ((current, valued) ∷ (legacy, legacy_value) ∷ []))
        ≡ done cs
      → AreDigests cs
  value_candidates_lem field signing asked context h =
      bind_done
        (map_failed digest_failed
          (value_request_digest codec request signing.recipients_commitment field))
        _ h
        λ current c h1.
          bind_done
            (map_failed digest_failed
              (value_request_digest_legacy_v3 codec request signing.recipients_commitment field))
            _ h1
            λ legacy l h2. subst AreDigests (ap listed h2) (
              (field, signing, asked, context, map_failed-done digest_failed _ c),
              ((field, signing, asked, context, map_failed-done digest_failed _ l), tt),
            )

  structured_candidates-AreDigests :
      (signing : Option RequestSigningContext) {cs : List (String × DigestEncoder)}
      → request.answer_field ≡ none
      → request.signing ≡ signing
      → structured_candidates codec request (commitment_of signing) ≡ done cs
      → AreDigests cs
  unfolding structured_candidates
  structured_candidates-AreDigests none asked context h = subst AreDigests (ap listed h) tt
  structured_candidates-AreDigests (some signing) asked context h =
      bind_done
        (map_failed digest_failed (request_digest_v1 codec request signing.recipients_commitment)) _
        h
        λ current c h1.
          bind_done
            (map_failed digest_failed
              (request_digest_legacy_structured_v2 codec request signing.recipients_commitment))
            _ h1
            λ legacy l h2. subst AreDigests (ap listed h2) (
              (asked, signing, context, map_failed-done digest_failed _ c),
              ((asked, signing, context, map_failed-done digest_failed _ l), tt),
            )

  receipt_candidates-AreDigests :
      {cs : List (String × DigestEncoder)}
      → receipt_candidates codec request ≡ done cs
      → AreDigests cs
  unfolding receipt_candidates
  receipt_candidates-AreDigests {cs} h = elim (Option-cases request.answer_field) [
    | inl n ↦
        bind_done (structured_candidates codec request (commitment_of request.signing)) _
          (rw (receipt_candidates, n) at h)
          λ contextual c h1.
            bind_done (map_failed digest_failed (request_digest_legacy_line_snapshot codec request))
              _ h1
              λ line l h2. subst AreDigests (ap listed h2) (
                All-append (λ c. IsDigest codec request c.0 c.1) contextual
                  ((line, legacy_line_snapshot) ∷ [])
                  (structured_candidates-AreDigests request.signing n refl c)
                  ((n, map_failed-done digest_failed _ l), tt))
    | inr (field, f) ↦
        bind_done (done_or (commitment_of request.signing) missing_signing_context) _
          (rw (receipt_candidates, f) at h)
          λ commitment c h1.
            let signed =
              commitment_of-some request.signing
                (done_or-some (commitment_of request.signing) missing_signing_context c) in
            value_candidates_lem field signed.0 f signed.1 (rw signed.2 h1)
  ]

  -- The digest that matches is the one that was found, and a digest of the request.
  pub match_request_digest-IsDigest :
      (found : String) {digest : String × DigestEncoder}
      → match_request_digest codec request found ≡ done digest
      → (digest.0 ≡ found) × IsDigest codec request digest.0 digest.1
  unfolding match_request_digest
  match_request_digest-IsDigest found {digest} h =
      bind_done (receipt_candidates codec request) _
        (after_done (known_context request.signing) _ h)
        λ cs listed h1.
          let e =
            done_or-some (find (λ c. c.0 == found) cs)
              (request_digest_mismatch (map (λ c. c.0) cs) found) h1 in
          (
            (eq_iff digest.0 found).0 (find_sound (λ c. c.0 == found) cs e),
            All-find (λ c. IsDigest codec request c.0 c.1) (λ c. c.0 == found) cs
                (receipt_candidates-AreDigests listed) e,
          )

-- The text of the version that the signature names.
abbrev pub IsText :
    Codec → Request → Decision → Option String → DecisionSigningInput → String → Type 0
IsText codec request decision version input text =
    ((version ≡ none)
      × (decision.answer_value ≡ none)
      × (request.answer_field ≡ none)
      × (text ≡ decision_signing_payload codec input))
    ⊎ ((answer : AnswerValue) × (version ≡ some "nod-decision-v2")
        × (decision.answer_value ≡ some answer)
        × (decision_signing_payload_v2 codec input answer ≡ done text))

abbrev text_of : Tried ReceiptError String → String
text_of (done text) = text
text_of (failed e) = ""

pub rebuilt_payload-IsText :
    (codec : Codec) (request : Request) (decision : Decision) (version : Option String)
    (input : DecisionSigningInput) {text : String}
    → rebuilt_payload codec request decision version input ≡ done text
    → IsText codec request decision version input text
unfolding rebuilt_payload
rebuilt_payload-IsText codec request decision none input h =
    pass_done (is_some decision.answer_value || is_some request.answer_field)
      unexpected_answer_value _ h
      λ plain h1. inl (
        refl,
        is_some-none decision.answer_value (ground (arith, plain)),
        is_some-none request.answer_field (ground (arith, plain)),
        sym (ap text_of h1),
      )
rebuilt_payload-IsText codec request decision (some version) input h =
    elim (Bool-cases (version == "nod-decision-v2")) [
      | inl v ↦
          bind_done (done_or decision.answer_value missing_answer_value) _ (rw v at h)
            λ answer a h1. inr (
              answer,
              ap some ((eq_iff version "nod-decision-v2").0 v),
              done_or-some decision.answer_value missing_answer_value a,
              map_failed-done payload_failed _ h1,
            )
      | inr v ↦ absurd (cc (rw v at h))
    ]

-- The decision is on this request.
pub names_another-false :
    (request : Request) (decision : Decision)
    → names_another request decision ≡ false
    → (decision.request_id ≡ request.id)
      × ((is_blank request.request_id ≡ true) ⊎ (request.request_id ≡ request.id))
names_another-false request decision h = (
  (eq_iff decision.request_id request.id).0 (ground (arith, h)),
  elim (Bool-cases (is_blank request.request_id)) [
    | inl e ↦ inl e
    | inr e ↦ inr ((eq_iff request.request_id request.id).0 (ground (arith, h, e)))
  ],
)

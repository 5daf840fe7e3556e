-- ===== src/Requests/Receipt/Digest.antt =====
-- A digest that the server accepts is one that the offline check recomputes.
use nod.Base.{
  ◌≡◌, refl, ap, ◌∙◌, inl, inr, String, true, false, List, [], ◌∷◌, ◌++◌, Option, none, some, any,
  Option-cases, arith, ◌==◌, ok, map_err, bad_request, ◌>>=◌,
}
use nod.Base.Tried as T
use nod.Base.Tried.{Tried, done, failed, map_failed, done_or}
use nod.Proto.Request.{CreateDecisionRequest, RequestSigningContext}
use nod.Proto.Signing.{Codec, P256, SigningError, request_digest_legacy_line_snapshot}
use nod.Proto.ValueSigning.{signing_of, shown}
use nod.Proto.Receipt.{
  DigestEncoder, digest_failed, valued, legacy_value, structured, structured_candidates,
  legacy_structured, legacy_line_snapshot, receipt_candidates,
}
use nod.Env.{Env, Url, Origin}
use nod.Model.{DecisionRequest, wire_of, to_wire, ok_of}
use nod.Requests.Signature.{digest_candidates, value_candidates, context_candidates, legacy_digest}
use nod.Requests.Receipt.{env_of}

-- Both lists hold the digests of the two value encoders.
value_candidates_agree :
    (current legacy : Tried SigningError String) (d : String) {cs : List String}
    → (map_err bad_request (shown current) >>= λ a.
        map_err bad_request (shown legacy) >>= λ b. ok (a ∷ b ∷ []))
      ≡ ok cs
    → any (λ c. c == d) cs ≡ true
    → (rs : List (String × DigestEncoder)) × (T.◌>>=◌ (map_failed digest_failed current) (λ a.
          T.◌>>=◌
            (map_failed digest_failed legacy)
            (λ b. done ((a, valued) ∷ (b, legacy_value) ∷ [])))
        ≡ done rs)
      × (any (λ c. c.0 == d) rs ≡ true)
value_candidates_agree (done a) (done b) d {cs} h m =
    let same : a ∷ b ∷ [] ≡ cs = cc h in (_, refl, ap (any (λ c. c == d)) same ∙ m)
value_candidates_agree (failed e) legacy d h m = absurd (cc h)
value_candidates_agree (done a) (failed e) d h m = absurd (cc h)

-- The same for an ordinary request, whose line snapshot the server lists first.
context_candidates_agree :
    (line current legacy : Tried SigningError String) (d : String) {cs : List String}
    → (elim (ok_of (shown line)) [
      | some stamped ↦ ok stamped
      | none ↦ map_err bad_request (shown line)
    ]
        >>= λ stamped. map_err bad_request (shown current) >>= λ a.
            map_err bad_request (shown legacy) >>= λ b. ok (stamped ∷ a ∷ b ∷ []))
      ≡ ok cs
    → any (λ c. c == d) cs ≡ true
    → (rs : List (String × DigestEncoder)) × (T.◌>>=◌
          (T.◌>>=◌ (map_failed digest_failed current) (λ a.
            T.◌>>=◌
              (map_failed digest_failed legacy)
              (λ b. done ((a, structured) ∷ (b, legacy_structured) ∷ []))))
          (λ contextual.
            T.◌>>=◌
              (map_failed digest_failed line)
              (λ l. done (contextual ++ (l, legacy_line_snapshot) ∷ [])))
        ≡ done rs)
      × (any (λ c. c.0 == d) rs ≡ true)
context_candidates_agree (done l) (done a) (done b) d {cs} h m =
    let same : l ∷ a ∷ b ∷ [] ≡ cs = cc h in
    let there : any (λ c. c == d) (l ∷ a ∷ b ∷ []) ≡ true = ap (any (λ c. c == d)) same ∙ m in
    (_, refl, ground (arith, there))
context_candidates_agree (failed e) current legacy d h m = absurd (cc h)
context_candidates_agree (done l) (failed e) legacy d h m = absurd (cc h)
context_candidates_agree (done l) (done a) (failed e) d h m = absurd (cc h)

module _ (codec : Codec) (p256 : P256) (parse_url : String → Option Url)
    (fingerprint : CreateDecisionRequest → String)
    (origin_fingerprint : String → Origin → String) where
  abbrev env : Env
  env = env_of codec p256 parse_url fingerprint origin_fingerprint

  -- The checker finds the digest among those that it recomputes.
  pub candidates_agree :
      (request : DecisionRequest) (context : RequestSigningContext) (d : String) {cs : List String}
      → request.private_recipients ≡ false
      → request.signing ≡ some context
      → digest_candidates env request ≡ ok cs
      → any (λ c. c == d) cs ≡ true
      → (rs : List (String × DigestEncoder)) × (receipt_candidates codec (to_wire env request)
          ≡ done rs)
        × (any (λ c. c.0 == d) rs ≡ true)
  unfolding digest_candidates value_candidates context_candidates legacy_digest receipt_candidates
      structured_candidates to_wire wire_of signing_of request_digest_legacy_line_snapshot
  candidates_agree request context d open_list signed h m =
      elim (Option-cases request.answer_field) [
        | inl n ↦
            rw (n, open_list, signed)
              (context_candidates_agree _ _ _ d (rw (n, open_list, signed) at h) m)
        | inr (field, f) ↦
            rw (f, open_list, signed)
              (value_candidates_agree _ _ d (rw (f, open_list, signed) at h) m)
      ]

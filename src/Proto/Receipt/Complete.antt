-- ===== src/Proto/Receipt/Complete.antt =====
-- When the check of nod-proto/src/receipt.rs passes.
use nod.Base.{
  ℕ, ◌≡◌, refl, ap, inl, inr, String, Bool, true, false, not, ◌&&◌, List, [], ◌∷◌, some, find, any,
  Bool-cases, eq_iff, eq_refl, ◌==◌, ltb, holds, if◌then◌else◌,
}
use nod.Base.Tried.{Tried, done, fail_if, done_or, map_failed, done_then}
use nod.Proto.Request.{RequestOption, OptionKind, OptionKind-discrete, DecisionSignatureRecord}
use nod.Proto.Signing.{Codec, P256, verify_payload}
use nod.Proto.Receipt.{
  ReceiptError, unknown_key, missing_signature, signature_invalid, or_default_skew, apart,
  PinnedKey, ReceiptVerificationInput, DigestEncoder, Warning, VerifiedReceipt, names_another,
  resolve_option, actor_of, is_other_device, match_request_digest, rebuilt_payload, payload_input,
  time_warnings, verify_decision_receipt,
}

pub find_digest :
    (d : String) (cs : List (String × DigestEncoder))
    → any (λ c. c.0 == d) cs ≡ true
    → (e : DigestEncoder) × (find (λ c. c.0 == d) cs ≡ some (d, e))
find_digest d [] h = absurd (cc h)
find_digest d ((c, e) ∷ cs) h = elim (Bool-cases (c == d)) [
  | inl m ↦ (e, rw m (ap (λ x. some (x, e)) ((eq_iff c d).0 m)))
  | inr m ↦ rw m (find_digest d cs (rw m at h))
]

either_done :
    (b : Bool) (x y : List Warning)
    → (ws : List Warning) × (◌≡◌ {A = Tried ReceiptError (List Warning)}
        (if b then done x else done y)
        (done ws))
either_done true x y = (x, refl)
either_done false x y = (y, refl)

same_kind :
    (a b : OptionKind)
    → a ≡ b
    → (e : ReceiptError) → fail_if (not (holds (OptionKind-discrete a b))) e ≡ done tt
same_kind a b p e = elim (OptionKind-discrete a b) as (λ d. fail_if (not (holds d)) e ≡ done tt) [
  | yes q ↦ refl
  | no n ↦ absurd (n p)
]

module _ (codec : Codec) (p256 : P256) (input : ReceiptVerificationInput) where
  -- Without `strict_time` the clocks give warnings only.
  time_warnings_lax :
      (signed_at : ℕ)
      → input.strict_time ≡ false
      → (ws : List Warning) × (time_warnings codec input signed_at ≡ done ws)
  unfolding time_warnings
  time_warnings_lax signed_at lax =
      rw lax
        (either_done (ltb (or_default_skew input.max_clock_skew) (apart input.now signed_at)) _ _)

  pub receipt_passes :
      (signature : DecisionSignatureRecord) (user_id device_id payload : String) (signed_at : ℕ)
      (digest : String × DigestEncoder) (option : RequestOption) (pinned : PinnedKey)
      → input.decision.signature ≡ some signature
      → signature.algorithm ≡ "p256_ecdsa_sha256"
      → names_another input.request input.decision ≡ false
      → match_request_digest codec input.request signature.request_digest ≡ done digest
      → resolve_option input.request input.decision.option_id ≡ done option
      → option.kind ≡ input.decision.option_kind
      → input.decision.actor_user_id ≡ some user_id
      → input.decision.actor_device_id ≡ some device_id
      → find
          (λ (k : PinnedKey). (k.user_id == user_id) && (k.key_id == signature.key_id))
          input.pinned_keys
        ≡ some pinned
      → is_other_device pinned.device_id device_id ≡ false
      → codec.parse_time signature.signed_at ≡ some signed_at
      → rebuilt_payload codec input.request input.decision signature.payload_version
          (payload_input codec input.decision signature digest.0 user_id device_id signed_at)
        ≡ done payload
      → payload ≡ signature.signing_payload
      → verify_payload codec p256 pinned.public_key payload signature.signature ≡ done tt
      → input.strict_time ≡ false
      → (receipt : VerifiedReceipt) × (verify_decision_receipt codec p256 input ≡ done receipt)
  unfolding verify_decision_receipt
  receipt_passes signature user_id device_id payload signed_at digest option pinned signed algorithm
        same recomputed offered kind user device found own parsed rebuilt recorded verified lax =
      let timely = time_warnings_lax signed_at lax in
      (
        _,
        done_then {a = signature} (done_or input.decision.signature missing_signature) _
            (rw signed refl)
            (done_then (fail_if (not (signature.algorithm == "p256_ecdsa_sha256")) _) _
              (rw algorithm refl)
              (done_then (fail_if (names_another input.request input.decision) _) _ (rw same refl) (
                done_then (match_request_digest codec input.request signature.request_digest) _
                  recomputed
                  (done_then (resolve_option input.request input.decision.option_id) _ offered (
                    done_then
                      (fail_if
                        (not (holds (OptionKind-discrete option.kind input.decision.option_kind)))
                        _)
                      _ (same_kind option.kind input.decision.option_kind kind _)
                      (done_then {a = (user_id, device_id)}
                        (actor_of input.decision.actor_user_id input.decision.actor_device_id) _
                        (rw (user, device) refl)
                        (done_then {a = pinned}
                          (done_or
                            (find
                              (λ (k : PinnedKey).
                                (k.user_id == user_id) && (k.key_id == signature.key_id))
                              input.pinned_keys)
                            (unknown_key user_id signature.key_id))
                          _ (ap (λ o. done_or o (unknown_key user_id signature.key_id)) found)
                          (done_then (fail_if (is_other_device pinned.device_id device_id) _) _
                            (rw own refl)
                            (done_then {a = signed_at}
                              (done_or (codec.parse_time signature.signed_at) _) _ (rw parsed refl)
                              (done_then
                                (rebuilt_payload codec input.request input.decision
                                  signature.payload_version
                                  (payload_input codec input.decision signature digest.0 user_id
                                    device_id signed_at))
                                _ rebuilt
                                (done_then (fail_if (not (payload == signature.signing_payload)) _)
                                  _ (rw (recorded, eq_refl signature.signing_payload) refl)
                                  (done_then
                                    (map_failed signature_invalid (
                                      verify_payload codec p256 pinned.public_key payload
                                        signature.signature))
                                    _ (rw verified refl)
                                    (done_then (time_warnings codec input signed_at) _ timely.1
                                      refl))))))))))))),
      )

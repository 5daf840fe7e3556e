-- ===== src/Proto/Receipt/Sound.antt =====
-- What a receipt that passes in nod-proto/src/receipt.rs establishes.
use nod.Base.{
  ap, true, is_blank, ℕ, ◌≡◌, ◌≤◌, subst, refl, ◌⊎◌, inl, inr, String, false, not, ◌&&◌, List,
  Option, none, some, Memᴰ, All-find, All-self, find, find_sound, Bool-cases, arith, eq_iff, ◌==◌,
  ltb, holds, holds-sound,
}
use nod.Base.Tried.{done, done_or, bind_done, pass_done, done_or-some, map_failed}
use nod.Proto.Request.{
  DecisionSigningInput, RequestOption, OptionKind-discrete, DecisionSignatureRecord,
}
use nod.Proto.Signing.{Codec, P256, verify_payload}
use nod.Proto.Receipt.{
  PinnedKey, ReceiptVerificationInput, DigestEncoder, missing_signature, unknown_key,
  invalid_signed_at, signature_invalid, Warning, VerifiedReceipt, names_another, resolve_option,
  actor_of, is_other_device, or_default_skew, apart, match_request_digest, rebuilt_payload,
  payload_input, time_warnings, verify_decision_receipt,
}
use nod.Proto.Receipt.Facts.{
  map_failed-done, IsOffered, resolve_option-IsOffered, IsDigest, match_request_digest-IsDigest,
  IsText, rebuilt_payload-IsText, names_another-false,
}

module _ (codec : Codec) (p256 : P256) (input : ReceiptVerificationInput) where
  -- What is signed for a receipt: what the receipt says, under the nonce of the signature and with the
  -- text of the decision.
  abbrev signed_input : VerifiedReceipt → DecisionSignatureRecord → DecisionSigningInput
  signed_input receipt signature = record {
    request_id = receipt.request_id;
    request_digest = receipt.request_digest;
    option_id = receipt.option_id;
    option_kind = receipt.option_kind;
    user_id = receipt.user_id;
    device_id = receipt.device_id;
    key_id = receipt.key_id;
    nonce = signature.nonce;
    signed_at = codec.show_time receipt.signed_at;
    text = input.decision.text;
  }

  -- The facts behind a receipt.
  pub record Vouched (receipt : VerifiedReceipt) : Type 0 where
    pub signature : DecisionSignatureRecord
    pub signed : input.decision.signature ≡ some signature
    pub algorithm : signature.algorithm ≡ "p256_ecdsa_sha256"
    -- The receipt is about the created request and this decision.
    pub request_id :
        (receipt.request_id ≡ input.request.id)
        × (input.decision.request_id ≡ input.request.id)
        × ((is_blank input.request.request_id ≡ true)
            ⊎ (input.request.request_id ≡ input.request.id))
    -- The key was pinned for the user that the receipt names.
    pub pinned : PinnedKey
    pub is_pinned : Memᴰ pinned input.pinned_keys
    pub of_user :
        (pinned.user_id ≡ receipt.user_id)
        × (pinned.key_id ≡ receipt.key_id)
        × (signature.key_id ≡ receipt.key_id)
    pub actor :
        (input.decision.actor_user_id ≡ some receipt.user_id)
        × (input.decision.actor_device_id ≡ some receipt.device_id)
        × ((pinned.device_id ≡ none) ⊎ (pinned.device_id ≡ some receipt.device_id))
    -- The signed digest is one of the created request.
    pub digest :
        (receipt.request_digest ≡ signature.request_digest)
        × IsDigest codec input.request receipt.request_digest receipt.digest_encoder
    -- The created request offers the option, with the kind that the receipt says.
    pub option : RequestOption
    pub offered : IsOffered input.request receipt.option_id option
    pub kind :
        (option.kind ≡ receipt.option_kind)
        × (input.decision.option_kind ≡ receipt.option_kind)
        × (input.decision.option_id ≡ receipt.option_id)
    -- The pinned key signed the text of what the receipt says.
    pub at_time : codec.parse_time signature.signed_at ≡ some receipt.signed_at
    pub text :
        IsText codec input.request input.decision signature.payload_version
          (signed_input receipt signature)
          signature.signing_payload
    pub verified :
        verify_payload codec p256 pinned.public_key signature.signing_payload signature.signature
        ≡ done tt
    -- With `strict_time` the clocks agree.
    pub timely :
        (input.strict_time ≡ false)
        ⊎ (apart input.now receipt.signed_at ≤ or_default_skew input.max_clock_skew)

  abbrev stated :
      String → String × DigestEncoder → String × String → ℕ → List Warning → VerifiedReceipt
  stated key_id digest actor signed_at warnings = record {
    request_id = input.decision.request_id;
    user_id = actor.0;
    device_id = actor.1;
    key_id = key_id;
    option_id = input.decision.option_id;
    option_kind = input.decision.option_kind;
    request_digest = digest.0;
    digest_encoder = digest.1;
    signed_at = signed_at;
    warnings = warnings;
  }

  actor_of-done :
      (user device : Option String) {a : String × String}
      → actor_of user device ≡ done a
      → (user ≡ some a.0) × (device ≡ some a.1)
  actor_of-done (some u) (some d) h = (cc h, cc h)
  actor_of-done none d h = absurd (cc h)
  actor_of-done (some u) none h = absurd (cc h)

  -- The key that was found, and that it was.
  found_key :
      (user_id key_id : String) {k : PinnedKey}
      → find (λ p. (p.user_id == user_id) && (p.key_id == key_id)) input.pinned_keys ≡ some k
      → Memᴰ k input.pinned_keys × ((k.user_id ≡ user_id) × (k.key_id ≡ key_id))
  found_key user_id key_id {k} h =
      let test =
        find_sound (λ p. (p.user_id == user_id) && (p.key_id == key_id)) input.pinned_keys h in
      (
        All-find (λ p. Memᴰ p input.pinned_keys)
            (λ p. (p.user_id == user_id) && (p.key_id == key_id)) input.pinned_keys
            (All-self input.pinned_keys) h,
        (
          (eq_iff k.user_id user_id).0 (ground (arith, test)),
          (eq_iff k.key_id key_id).0 (ground (arith, test)),
        ),
      )

  time_warnings-done :
      (signed_at : ℕ) {ws : List Warning}
      → time_warnings codec input signed_at ≡ done ws
      → (input.strict_time ≡ false)
        ⊎ (apart input.now signed_at ≤ or_default_skew input.max_clock_skew)
  unfolding time_warnings
  time_warnings-done signed_at h =
      elim (Bool-cases (ltb (or_default_skew input.max_clock_skew) (apart input.now signed_at))) [
        | inl late ↦ elim (Bool-cases input.strict_time) [
          | inl strict ↦ absurd (cc (rw (late, strict) at h))
          | inr lax ↦ inl lax
        ]
        | inr early ↦ inr (ground (arith, early))
      ]

  same_device :
      (pinned : Option String) (device_id : String)
      → is_other_device pinned device_id ≡ false
      → (pinned ≡ none) ⊎ (pinned ≡ some device_id)
  same_device none device_id h = inl refl
  same_device (some d) device_id h = inr (ap some ((eq_iff d device_id).0 (ground (arith, h))))

  -- A receipt that passes is vouched for. It is about the created request, by its id, and the
  -- decision's user, device, option and kind are those of the receipt. The user has a pinned key, for
  -- its device where the pin names one. The signed digest is a digest of the created request in the
  -- encoding that the receipt names. The option is one of the request's, or the dismissal of a
  -- request that has neither options nor an answer field, and it has the receipt's kind. The recorded text is the
  -- text of the signature's version for exactly what the receipt says, and the pinned key's signature
  -- of that text verifies. With strict time the clocks agree within the tolerance.
  pub receipt_is_genuine :
      {receipt : VerifiedReceipt}
      → verify_decision_receipt codec p256 input ≡ done receipt
      → Vouched receipt
  unfolding verify_decision_receipt
  receipt_is_genuine {receipt} h =
      bind_done (done_or input.decision.signature missing_signature) _ h λ signature signed h1.
        pass_done (not (signature.algorithm == "p256_ecdsa_sha256")) _ _ h1 λ algorithm h2.
          pass_done (names_another input.request input.decision) _ _ h2 λ same h3.
            bind_done (match_request_digest codec input.request signature.request_digest) _ h3
              λ digest recomputed h4.
                bind_done (resolve_option input.request input.decision.option_id) _ h4
                  λ option offered h5.
                    pass_done
                      (not (holds (OptionKind-discrete option.kind input.decision.option_kind))) _ _
                      h5
                      λ kind h6.
                        bind_done
                          (actor_of input.decision.actor_user_id input.decision.actor_device_id) _
                          h6
                          λ actor acted h7.
                            bind_done
                              (done_or
                                (find
                                  (λ (p : PinnedKey).
                                    (p.user_id == actor.0) && (p.key_id == signature.key_id))
                                  input.pinned_keys)
                                (unknown_key actor.0 signature.key_id))
                              _ h7
                              λ pinned found h8.
                                pass_done (is_other_device pinned.device_id actor.1) _ _ h8
                                  λ device h9.
                                    bind_done
                                      (done_or (codec.parse_time signature.signed_at)
                                        (invalid_signed_at signature.signed_at))
                                      _ h9
                                      λ signed_at parsed h10.
                                        bind_done
                                          (rebuilt_payload codec input.request input.decision
                                            signature.payload_version
                                            (payload_input codec input.decision signature digest.0
                                              actor.0 actor.1 signed_at))
                                          _ h10
                                          λ rebuilt built h11.
                                            pass_done (not (rebuilt == signature.signing_payload)) _
                                              _ h11
                                              λ equal h12.
                                                bind_done
                                                  (map_failed signature_invalid (
                                                    verify_payload codec p256 pinned.public_key
                                                      rebuilt signature.signature))
                                                  _ h12
                                                  λ u verified h13.
                                                    bind_done (time_warnings codec input signed_at)
                                                      (λ ws. done (
                                                        stated signature.key_id digest actor
                                                          signed_at ws))
                                                      h13
                                                      λ warnings timely h14.
                                                        let key =
                                                          found_key actor.0 signature.key_id (
                                                            done_or-some
                                                            (find
                                                            (λ p.
                                                            (p.user_id == actor.0)
                                                            && (p.key_id == signature.key_id))
                                                            input.pinned_keys)
                                                            (unknown_key actor.0 signature.key_id)
                                                            found) in
                                                        let passed : VerifiedReceipt =
                                                          stated signature.key_id digest actor
                                                            signed_at warnings in
                                                        let last : passed ≡ receipt = cc h14 in
                                                        let users =
                                                          actor_of-done input.decision.actor_user_id
                                                            input.decision.actor_device_id acted in
                                                        let recorded : rebuilt
                                                            ≡ signature.signing_payload =
                                                          (eq_iff rebuilt
                                                            signature.signing_payload).0
                                                            (ground (arith, equal)) in
                                                        let about =
                                                          names_another-false input.request
                                                            input.decision same in
                                                        subst Vouched last (record {
                                                          signature = signature;
                                                          signed =
                                                            done_or-some input.decision.signature
                                                            missing_signature signed;
                                                          algorithm =
                                                            (eq_iff signature.algorithm
                                                            "p256_ecdsa_sha256").0
                                                            (ground (arith, algorithm));
                                                          request_id = (about.0, about.0, about.1);
                                                          pinned = pinned;
                                                          is_pinned = key.0;
                                                          of_user = (key.1.0, key.1.1, refl);
                                                          actor = (
                                                            users.0,
                                                            users.1,
                                                            same_device pinned.device_id actor.1
                                                            device,
                                                          );
                                                          digest =
                                                            match_request_digest-IsDigest codec
                                                            input.request signature.request_digest
                                                            recomputed;
                                                          option = option;
                                                          offered =
                                                            resolve_option-IsOffered input.request
                                                            input.decision.option_id offered;
                                                          kind = (
                                                            holds-sound
                                                            (OptionKind-discrete option.kind
                                                            input.decision.option_kind)
                                                            (ground (arith, kind)),
                                                            refl,
                                                            refl,
                                                          );
                                                          at_time =
                                                            done_or-some
                                                            (codec.parse_time signature.signed_at)
                                                            (invalid_signed_at signature.signed_at)
                                                            parsed;
                                                          text =
                                                            subst
                                                            (IsText codec input.request
                                                            input.decision signature.payload_version
                                                            (payload_input codec input.decision
                                                            signature digest.0 actor.0 actor.1
                                                            signed_at))
                                                            recorded
                                                            (rebuilt_payload-IsText codec
                                                            input.request input.decision
                                                            signature.payload_version _ built);
                                                          verified =
                                                            subst
                                                            (λ text.
                                                            verify_payload codec p256
                                                            pinned.public_key text
                                                            signature.signature
                                                            ≡ done tt)
                                                            recorded
                                                            (map_failed-done signature_invalid
                                                            (verify_payload codec p256
                                                            pinned.public_key rebuilt
                                                            signature.signature)
                                                            verified);
                                                          timely =
                                                            time_warnings-done signed_at timely;
                                                        })

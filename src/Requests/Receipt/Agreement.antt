-- ===== src/Requests/Receipt/Agreement.antt =====
-- A decision that the server records passes the offline check of nod-proto/src/receipt.rs.
use nod.Base.{
  ℕ, ◌≡◌, refl, subst, ap, ◌∙◌, String, true, false, ◌&&◌, [], ◌∷◌, Option, some, find, eq_refl,
  ◌==◌, ok,
}
use nod.Base.Tried.{done}
use nod.Proto.Request.{CreateDecisionRequest, Decision}
use nod.Proto.Signing.{Codec, P256, verify_payload}
use nod.Proto.ValueSigning.{signing_of, is_done}
use nod.Proto.Receipt.{
  ReceiptVerificationInput, PinnedKey, VerifiedReceipt, verify_decision_receipt,
}
use nod.Proto.Receipt.Complete.{receipt_passes}
use nod.Env.{Env, Url, Origin}
use nod.Store.{Db}
use nod.Model.{DecisionRequest, Device, to_wire}
use nod.Requests.Signature.{signing_payload, signing_input, signature_record}
use nod.Requests.Signature.Inversion.{verified-Signs}
use nod.Requests.Decide.{
  DecisionSubmission, decision_of, device_id_of, trimmed_text, record_decision,
}
use nod.Requests.Decide.Inversion.{Stages, stages_of}
use nod.Requests.Decide.Safety.{admit-IsAdmissible}
use nod.Requests.Maintain.Expiry.{get_request_on-id}
use nod.Requests.Receipt.{env_of}
use nod.Requests.Receipt.Stamped.{
  get_request_on-IsStamped, to_wire-signing, to_wire-options, match_request_digest_lem,
  resolve_option_lem,
}
use nod.Requests.Receipt.Rebuilt.{rebuilt_payload_lem, own_device, names_this, is_done-done}
use nod.Requests.Receipt.Digest.{candidates_agree}

module _ (codec : Codec) (p256 : P256) (parse_url : String → Option Url)
    (fingerprint : CreateDecisionRequest → String) (origin_fingerprint : String → Origin → String)
    (db : Db) (now resolved_at : ℕ) (event_id : String) (s : DecisionSubmission) (d : Device)
    (key_id public_key : String) where
  abbrev env : Env
  env = env_of codec p256 parse_url fingerprint origin_fingerprint

  -- The device's own key, pinned for its user.
  abbrev pin : PinnedKey
  pin = record {
    user_id = d.user_id;
    device_id = some d.id;
    key_id = key_id;
    public_key = public_key;
  }

  own_pin :
      (id : String)
      → id ≡ key_id
      → find (λ (k : PinnedKey). (k.user_id == d.user_id) && (k.key_id == id)) (pin ∷ []) ≡ some pin
  own_pin id e = rw (e, eq_refl d.user_id, eq_refl key_id) refl

  -- What an issuer hands to the offline check: the request, the decision, and the pinned key.
  abbrev pub receipt_input : DecisionRequest → Decision → ℕ → Option ℕ → ReceiptVerificationInput
  receipt_input request decision clock skew = record {
    request = to_wire env request;
    decision = decision;
    pinned_keys = pin ∷ [];
    now = clock;
    max_clock_skew = skew;
    strict_time = false;
  }

  -- A decision that the server records for a device passes the offline check: against the request as the
  -- server read it, with the device's key pinned for its user and at any clock, the check of the
  -- decision that was recorded gives a receipt. (The acting user is the device's; the strict
  -- test of the clock is off.)
  pub recorded_decision_verifies :
      {after : DecisionRequest} {last : Db} (clock : ℕ) (skew : Option ℕ)
      → s.actor_device ≡ some d
      → s.actor_user_id ≡ some d.user_id
      → d.signing_key_id ≡ some key_id
      → d.signing_public_key ≡ some public_key
      → record_decision env db now resolved_at event_id s ≡ ok (after, last)
      → (t : Stages env db now resolved_at event_id s after last) × (receipt : VerifiedReceipt)
        × (verify_decision_receipt codec p256
              (receipt_input t.request (decision_of s t.option t.signature resolved_at) clock skew)
            ≡ done receipt)
  unfolding decision_of signing_of
  recorded_decision_verifies clock skew by_device by_user own_id own_key h =
      let t = stages_of env db now resolved_at event_id s h in
      let v =
        verified-Signs env db resolved_at t.request t.option d (trimmed_text s.decision.text)
          s.decision.signature s.decision.answer_value {p = (t.signature, t.noted)}
          (rw (← by_device) t.verified) in
      let w = v.is_signed in
      let stamped = get_request_on-IsStamped env db s.request_id t.found in
      let named = get_request_on-id env db s.request_id t.found in
      let wire = to_wire env t.request in
      let same_key : w.public_key ≡ public_key = cc (w.own_key, own_key) in
      let same_id : v.signature.key_id ≡ key_id = cc (w.own_key_id, own_id) in
      let listed =
        candidates_agree codec p256 parse_url fingerprint origin_fingerprint t.request
          stamped.context v.signature.request_digest stamped.full stamped.signing w.issued
          w.of_snapshot in
      let matched =
        match_request_digest_lem codec wire stamped.context v.signature.request_digest listed.0
          (to_wire-signing env t.request ∙ stamped.signing) stamped.known listed.1 listed.2 in
      let found = (admit-IsAdmissible env db now s t.request t.admitted).1 in
      let named_so =
        subst
          (λ i.
            signing_payload env t.request
              (record (signing_input t.request t.option d (trimmed_text s.decision.text) v.signature
                (codec.show_time w.signed_at)) { request_id = i })
              v.signature s.decision.answer_value
            ≡ ok w.payload)
          named w.covers in
      let passed =
        receipt_passes codec p256
          (receipt_input t.request (decision_of s t.option t.signature resolved_at) clock skew)
          (signature_record d v.signature v.signature.request_digest w.payload) d.user_id d.id
          w.payload w.signed_at (v.signature.request_digest, matched.0) t.option pin v.recorded
          w.with_p256
          (names_this wire s.request_id ((to_wire-options env t.request).2 ∙ named)
            ((to_wire-options env t.request).3 ∙ named))
          matched.1 (resolve_option_lem env t.request s.option_id found) refl by_user
          (ap device_id_of by_device) (own_pin v.signature.key_id same_id) (own_device d.id)
          w.at_time
          (rebuilt_payload_lem codec p256 parse_url fingerprint origin_fingerprint t.request _
            v.signature (decision_of s t.option t.signature resolved_at) named_so)
          refl
          (is_done-done (verify_payload codec p256 public_key w.payload v.signature.signature) (
            subst
              (λ k. is_done (verify_payload codec p256 k w.payload v.signature.signature) ≡ true)
              same_key w.verified))
          refl in
      (t, passed.0, passed.1)

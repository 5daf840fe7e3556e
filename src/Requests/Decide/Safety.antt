-- ===== src/Requests/Decide/Safety.antt =====
-- Who may decide what, and when: decisions.rs behind a decision that is recorded.
use nod.Base.{
  ℕ, ◌≡◌, refl, ◌∙◌, ◌⊎◌, inl, inr, String, true, false, not, ◌&&◌, Option, none, some, ◌==◌, any,
  is_none, conflict, not_found, ok, refuse_if, refuse_if-ok, bind_ok, then_ok, ok_or, ok_or-eq-ok,
  arith,
}
use nod.Proto.Request.{RequestOption, DecisionSignature, DecisionSignatureRecord, is_pending}
use nod.Env.{Env}
use nod.Store.{Db}
use nod.Model.{DecisionRequest, Device}
use nod.Requests.Read.{get_request_on}
use nod.Requests.Signature.{verified_decision_signature}
use nod.Requests.Signature.Inversion.{IsSigned, is_nonce, verified-Signs}
use nod.Requests.Decide.{
  DecisionSubmission, admit, check_payload, check_device, check_recipient, find_option, is_due,
  trimmed_text, record_decision,
}
use nod.Requests.Decide.Payload.{IsPayload, check_payload-IsPayload, IsChoice, find_option-IsChoice}
use nod.Requests.Decide.Inversion.{stages_of}

-- What the checks before the signature establish.
pub record IsAdmissible (db : Db) (now : ℕ) (s : DecisionSubmission) (request : DecisionRequest)
    : Type 0 where
  pub is_open : is_pending request.status ≡ true
  pub carries : IsPayload request.answer_field s
  pub in_time : is_due now request.expires_at ≡ false
  pub for_recipient :
      (s.actor_user_id ≡ none)
      ⊎ ((u : String) × (s.actor_user_id ≡ some u) × (any (λ r. r == u) request.recipients ≡ true))
  pub from_active :
      (s.actor_device ≡ none)
      ⊎ ((d : Device) × (s.actor_device ≡ some d)
          × (any (λ r. (r.id == d.id) && is_none r.revoked_at) db.devices ≡ true))

check_recipient-ok :
    (request : DecisionRequest) (actor : Option String)
    → check_recipient request actor ≡ ok tt
    → (actor ≡ none)
      ⊎ ((u : String) × (actor ≡ some u) × (any (λ r. r == u) request.recipients ≡ true))
unfolding check_recipient
check_recipient-ok request none h = inl refl
check_recipient-ok request (some u) h = inr (u, refl, ground arith)

check_device-ok :
    (db : Db) (actor : Option Device)
    → check_device db actor ≡ ok tt
    → (actor ≡ none)
      ⊎ ((d : Device) × (actor ≡ some d)
          × (any (λ r. (r.id == d.id) && is_none r.revoked_at) db.devices ≡ true))
unfolding check_device
check_device-ok db none h = inl refl
check_device-ok db (some d) h = inr (d, refl, ground arith)

pub admit-IsAdmissible :
    (env : Env) (db : Db) (now : ℕ) (s : DecisionSubmission) (request : DecisionRequest)
    {option : RequestOption}
    → admit env db now s request ≡ ok option
    → IsAdmissible db now s request × (find_option request s.option_id ≡ some option)
unfolding admit
admit-IsAdmissible env db now s request {option} h =
    then_ok (check_payload env s request.answer_field) _ h λ payload h1.
      then_ok (check_device db s.actor_device) _ h1 λ device h2.
        then_ok (check_recipient request s.actor_user_id) _ h2 λ recipient h3.
          then_ok (refuse_if (is_due now request.expires_at) (conflict "request has expired")) _ h3
            λ early h4.
              bind_ok (ok_or (find_option request s.option_id) not_found) _ h4 λ found chosen h5.
                then_ok
                  (refuse_if (not (is_pending request.status))
                    (conflict "request is no longer pending"))
                  _ h5
                  λ pending h6.
                    let open_now : not (is_pending request.status) ≡ false =
                      refuse_if-ok (not (is_pending request.status))
                        (conflict "request is no longer pending") pending in
                    (
                      record {
                        is_open = ground (arith, open_now);
                        carries = check_payload-IsPayload env s request.answer_field payload;
                        in_time = refuse_if-ok _ (conflict "request has expired") early;
                        for_recipient = check_recipient-ok request s.actor_user_id recipient;
                        from_active = check_device-ok db s.actor_device device;
                      },
                      ok_or-eq-ok (find_option request s.option_id) not_found chosen ∙ cc h6,
                    )

-- A device's decision is signed by it, under a new nonce.
abbrev pub IsAuthentic : Env → Db → DecisionRequest → RequestOption → DecisionSubmission → Type 0
IsAuthentic env db request option s =
    (s.actor_device ≡ none)
    ⊎ ((d : Device) × (signature : DecisionSignature) × (s.actor_device ≡ some d)
        × (s.decision.signature ≡ some signature)
        × IsSigned env request option d (trimmed_text s.decision.text) signature
            s.decision.answer_value
        × (any (is_nonce d.id signature.key_id signature.nonce) db.nonces ≡ false))

authentic :
    (env : Env) (db : Db) (now : ℕ) (request : DecisionRequest) (option : RequestOption)
    (s : DecisionSubmission) (actor : Option Device) {p : Option DecisionSignatureRecord × Db}
    → s.actor_device ≡ actor
    → verified_decision_signature env db now request option actor
        (trimmed_text s.decision.text)
        s.decision.signature
        s.decision.answer_value
      ≡ ok p
    → IsAuthentic env db request option s
authentic env db now request option s none e h = inl e
authentic env db now request option s (some d) e h =
    let v = verified-Signs env db now request option d _ _ _ h in
    inr (d, v.signature, e, v.given, v.is_signed, v.is_new)

-- A decision that is recorded was due to its actor: the request was there, pending and before its
-- expiry; the acting user, if any, was a recipient; the acting device, if any, was not revoked; the
-- option was one of the request's, or the dismissal implied by a request without options and answer
-- field; the submission carried what the request asks for (for an answer field a value that fits it, notes of
-- bounded length and a signature of the second version, from a device of the acting user; otherwise
-- no value and no later version); and a device's decision carried that
-- device's valid signature over this request, option and text, under a nonce that was not used before.
pub recorded_decision_is_lawful :
    (env : Env) (db : Db) (now resolved_at : ℕ) (event_id : String) (s : DecisionSubmission)
    {after : DecisionRequest} {last : Db}
    → record_decision env db now resolved_at event_id s ≡ ok (after, last)
    → (request : DecisionRequest) × (option : RequestOption) × (get_request_on env db s.request_id
        ≡ ok request)
      × (find_option request s.option_id ≡ some option)
      × IsAdmissible db now s request
      × IsAuthentic env db request option s
      × IsChoice request s.option_id option
recorded_decision_is_lawful env db now resolved_at event_id s h =
    let t = stages_of env db now resolved_at event_id s h in
    let a = admit-IsAdmissible env db now s t.request t.admitted in
    (
      t.request,
      t.option,
      t.found,
      a.1,
      a.0,
      authentic env db resolved_at t.request t.option s s.actor_device refl t.verified,
      find_option-IsChoice t.request s.option_id a.1,
    )

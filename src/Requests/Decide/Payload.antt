-- ===== src/Requests/Decide/Payload.antt =====
-- What a submission that is admitted by db/requests/decisions.rs carries and chooses.
use nod.Base.{
  ◌≡◌, refl, ap, ◌⊎◌, inl, inr, String, true, false, not, ◌||◌, Option, none, some, List, [], ◌∷◌,
  ◌==◌, Memᴰ, All-find, All-self, find, find_sound, Bool-cases, Option-cases, eq_iff, is_some,
  is_empty, arith, ok, bad_request, refuse_if-ok, bind_ok, then_ok, guard_ok, ok_or, ok_or-eq-ok,
}
use nod.Proto.Answer.{AnswerField, AnswerValue, Check, valid, invalid, validate, validate_value}
use nod.Proto.Request.{RequestOption}
use nod.Env.{Env}
use nod.Model.{DecisionRequest, Device}
use nod.Validation.{check_answer, implicit_dismiss_option, dismiss_option}
use nod.Requests.Signature.{is_text}
use nod.Requests.Decide.{
  DecisionSubmission, check_payload, find_option, acts_for_itself, version_of, notes_too_long,
}

-- For a request with an answer field: a device of the acting user, an outcome of the request, a value
-- that fits the field, notes within 16384 bytes and a signature of the second version. For any
-- other request: no value, and a signature, if any, of the first version.
abbrev pub IsPayload : Option AnswerField → DecisionSubmission → Type 0
IsPayload none s = (s.decision.answer_value ≡ none) × (version_of s.decision.signature ≡ none)
IsPayload (some field) s =
    ((s.option_id == "__nod_value_open") ≡ false)
    × (device : Device) × (s.actor_device ≡ some device)
    × (s.actor_user_id ≡ some device.user_id)
    × (value : AnswerValue) × (s.decision.answer_value ≡ some value)
    × (validate_value field value ≡ valid)
    × (notes_too_long s.decision.text ≡ false)
    × (version_of s.decision.signature ≡ some "nod-decision-v2")

no_some {ℓ} : {A : Type ℓ} (o : Option A) → is_some o ≡ false → o ≡ none
no_some none h = refl
no_some (some a) h = absurd (cc h)

check_answer-ok : (c : Check) → check_answer c ≡ ok tt → c ≡ valid
check_answer-ok valid h = refl
check_answer-ok (invalid e) h = absurd (cc h)

own_device :
    (device : Option Device) (user : Option String)
    → acts_for_itself device user ≡ true
    → (d : Device) × (device ≡ some d) × (user ≡ some d.user_id)
own_device (some d) (some u) h = (d, refl, ap some ((eq_iff u d.user_id).0 h))
own_device (some d) none h = absurd (cc h)
own_device none u h = absurd (cc h)

is_text-some : (o : Option String) (t : String) → is_text o t ≡ true → o ≡ some t
is_text-some none t h = absurd (cc h)
is_text-some (some u) t h = ap some ((eq_iff u t).0 h)

pub check_payload-IsPayload :
    (env : Env) (s : DecisionSubmission) (field : Option AnswerField)
    → check_payload env s field ≡ ok tt
    → IsPayload field s
unfolding check_payload
check_payload-IsPayload env s none h =
    let plain =
      refuse_if-ok (is_some s.decision.answer_value || is_some (version_of s.decision.signature)) _
        h in
    (
      no_some s.decision.answer_value (ground (arith, plain)),
      no_some (version_of s.decision.signature) (ground (arith, plain)),
    )
check_payload-IsPayload env s (some field) h =
    guard_ok
      ((s.option_id == "__nod_value_open") || not (acts_for_itself s.actor_device s.actor_user_id))
      _ _ h
      λ real h1. then_ok (check_answer (validate env.json_len field)) _ h1 λ sound h2.
        bind_ok (ok_or s.decision.answer_value (bad_request "explicit answer_value required")) _ h2
          λ value given h3. then_ok (check_answer (validate_value field value)) _ h3 λ fits h4.
            guard_ok (notes_too_long s.decision.text) _ _ h4 λ notes h5.
              let version =
                refuse_if-ok (not (is_text (version_of s.decision.signature) "nod-decision-v2")) _
                  h5 in
              let own = own_device s.actor_device s.actor_user_id (ground (arith, real)) in
              (
                ground (arith, real),
                own.0,
                own.1,
                own.2,
                value,
                ok_or-eq-ok s.decision.answer_value (bad_request "explicit answer_value required")
                    given,
                check_answer-ok (validate_value field value) fits,
                notes,
                is_text-some (version_of s.decision.signature) "nod-decision-v2"
                    (ground (arith, version)),
              )

-- One of the request's options, or the dismissal that a request with neither options nor an answer
-- field implies.
abbrev pub IsChoice : DecisionRequest → String → RequestOption → Type 0
IsChoice request option_id option =
    (Memᴰ option request.options × (option.id ≡ option_id))
    ⊎ ((request.options ≡ [])
        × (request.answer_field ≡ none)
        × (option_id ≡ "dismiss")
        × (option ≡ dismiss_option))

no_options {ℓ} : {A : Type ℓ} (xs : List A) → is_empty xs ≡ true → xs ≡ []
no_options [] h = refl
no_options (x ∷ xs) h = absurd (cc h)

implied :
    (request : DecisionRequest) (option_id : String) {option : RequestOption}
    → implicit_dismiss_option request option_id ≡ some option
    → IsChoice request option_id option
unfolding implicit_dismiss_option
implied request option_id h =
    elim (Bool-cases (
      is_some request.answer_field
      || not (option_id == "dismiss")
      || not (is_empty request.options))) [
        | inl t ↦ absurd (cc (rw t at h))
        | inr t ↦ inr (
          no_options request.options (ground (arith, t)),
          no_some request.answer_field (ground (arith, t)),
          (eq_iff option_id "dismiss").0 (ground (arith, t)),
          cc (rw t at h),
        )
      ]

pub find_option-IsChoice :
    (request : DecisionRequest) (option_id : String) {option : RequestOption}
    → find_option request option_id ≡ some option
    → IsChoice request option_id option
unfolding find_option
find_option-IsChoice request option_id {option} h =
    elim (Option-cases (find (λ o. o.id == option_id) request.options)) [
      | inl e ↦ implied request option_id (rw e at h)
      | inr (o, e) ↦
          let same : o ≡ option = cc (rw e at h) in
          rw (← same) (
            inl (
              All-find (λ x. Memᴰ x request.options) (λ x. x.id == option_id) request.options
                  (All-self request.options) e,
              (eq_iff o.id option_id).0 (find_sound (λ x. x.id == option_id) request.options e),
            ))
    ]

-- ===== src/Requests/Read/Digest.antt =====
-- The digests of nod-proto/src on the view of a user (db/requests/read.rs).
use nod.Base.{
  ℕ, ◌≡◌, refl, sym, ap, ◌∙◌, inl, inr, String, not, ◌&&◌, List, Option, none, some, find, length,
  ltb, ◌==◌, is_none, Bool-cases,
}
use nod.Proto.Answer.{AnswerField}
use nod.Proto.Request.{pending, resolved, expired, cancelled, UserDecision, is_shared}
use nod.Proto.Json.{Json}
use nod.Proto.Signing.{Codec, content_members, digest_of_members, structured_request_digest}
use nod.Proto.ValueSigning.{value_digest_of_members, value_request_digest_with_version}
use nod.Env.{Env}
use nod.Model.{DecisionRequest, wire_of, to_wire}
use nod.Requests.Read.{project_request_for_user, seen_by}

abbrev content : (ℕ → String) → Env → DecisionRequest → String → List (String × Json)
content show env r commitment = content_members show (to_wire env r) commitment

to_wire-content :
    (show : ℕ → String) (env : Env) (r : DecisionRequest) (commitment : String)
    → content show env r commitment ≡ content_members show (wire_of r) commitment
unfolding to_wire
to_wire-content show env r commitment =
    elim (Bool-cases (not r.private_recipients && is_none r.answer_field)) [
      | inl e ↦ rw e refl
      | inr e ↦ rw e refl
    ]

seen_by-content :
    (show : ℕ → String) (r : DecisionRequest) (own : Option UserDecision) (commitment : String)
    → content_members show (wire_of (seen_by r own)) commitment
      ≡ content_members show (wire_of r) commitment
unfolding wire_of
seen_by-content show r (some d) commitment = refl
seen_by-content show r none commitment =
    elim r.status
      as (λ st.
        content_members show
          (wire_of (elim st [
            | resolved ↦ record r { status = pending; resolved_at = none; decision = none }
            | _ ↦ r
          ]))
          commitment
        ≡ content_members show (wire_of r) commitment) [
          | pending ↦ refl
          | resolved ↦ refl
          | expired ↦ refl
          | cancelled ↦ refl
        ]

projected-content :
    (show : ℕ → String) (r : DecisionRequest) (user_id commitment : String)
    → content_members show (wire_of (project_request_for_user r user_id)) commitment
      ≡ content_members show (wire_of r) commitment
unfolding project_request_for_user wire_of
projected-content show r user_id commitment = elim (Bool-cases (is_shared r.decision_resolution)) [
  | inl e ↦ rw e refl
  | inr e ↦ rw e (
      seen_by-content show (record r { private_recipients = ltb 1 (length r.recipients) })
        (find (λ d. d.user_id == user_id) r.user_decisions) commitment)
]

project_request_for_user-content :
    (show : ℕ → String) (env : Env) (r : DecisionRequest) (user_id commitment : String)
    → content show env (project_request_for_user r user_id) commitment
      ≡ content show env r commitment
project_request_for_user-content show env r user_id commitment =
    to_wire-content show env (project_request_for_user r user_id) commitment
    ∙ projected-content show r user_id commitment
    ∙ sym (to_wire-content show env r commitment)

-- What a user is shown of a request has the digests of the whole request: the structured digests and
-- those of a value request, current and older, that a device computes of its user's view are the
-- ones that the server computes of the full request, whoever answered it and whatever its status.
pub view_has_the_digest :
    (codec : Codec) (env : Env) (r : DecisionRequest) (user_id commitment version : String)
    (field : AnswerField)
    → (structured_request_digest codec
          (to_wire env (project_request_for_user r user_id))
          commitment
          version
        ≡ structured_request_digest codec (to_wire env r) commitment version)
      × (value_request_digest_with_version codec
            (to_wire env (project_request_for_user r user_id))
            commitment
            field
            version
          ≡ value_request_digest_with_version codec (to_wire env r) commitment field version)
unfolding structured_request_digest value_request_digest_with_version
view_has_the_digest codec env r user_id commitment version field =
    let same = project_request_for_user-content codec.show_time env r user_id commitment in
    (
      ap (λ ms. digest_of_members codec ms commitment version) same,
      ap (λ ms. value_digest_of_members codec ms commitment field version) same,
    )

-- ===== src/Requests/Read/Privacy.antt =====
-- What `project_request_for_user` of db/requests/rows.rs lets one user see of the others.
use nod.Base.{
  ℕ, ◌≡◌, refl, String, Bool, true, ◌==◌, Option, none, some, List, [], ◌∷◌, find, select, All,
  All-select_test, Option-cases, Bool-cases, inl, inr,
}
use nod.Proto.Request.{Decision, UserDecision, pending, resolved, per_user}
use nod.Model.{DecisionRequest}
use nod.Requests.Read.{project_request_for_user}

abbrev first {ℓ} : {A : Type ℓ} → List A → Option A
first [] = none
first (x ∷ xs) = some x

find-select {ℓ} : {A : Type ℓ} (p : A → Bool) (xs : List A) → find p xs ≡ first (select p xs)
find-select p [] = refl
find-select p (x ∷ xs) = elim (Bool-cases (p x)) [ inl e ↦ rw e | inr e ↦ rw e (find-select p xs) ]

same_own :
    (u : String) (as' bs : List UserDecision)
    → select (λ d. d.user_id == u) as' ≡ select (λ d. d.user_id == u) bs
    → find (λ d. d.user_id == u) as' ≡ find (λ d. d.user_id == u) bs
same_own u as' bs h =
    rw (find-select (λ d. d.user_id == u) as', find-select (λ d. d.user_id == u) bs, h)

abbrev own_decision : Option UserDecision → Option Decision
own_decision none = none
own_decision (some d) = some d.decision

-- For a request that each recipient answers alone (per user), the view of a user
-- holds no recipient and no decision of another user. It is the same whatever the others decided,
-- and whether or not their decisions closed the request, with whatever decision and time it was
-- closed (the time of its last change being equal); the decision that it shows is the user's own, if any.
pub view_hides_other_users :
    (r : DecisionRequest) (u : String) (closed_at : Option ℕ) (closing : Option Decision)
    (theirs others : List UserDecision)
    → r.decision_resolution ≡ per_user
    → select (λ d. d.user_id == u) theirs ≡ select (λ d. d.user_id == u) others
    → let view = project_request_for_user r u in
      let opened =
        project_request_for_user
          (record r {
            status = pending;
            resolved_at = none;
            decision = none;
            user_decisions = theirs;
          })
          u in
      let closed =
        project_request_for_user
          (record r {
            status = resolved;
            resolved_at = closed_at;
            decision = closing;
            user_decisions = others;
          })
          u in
      All (λ v. (v == u) ≡ true) view.recipients
      × All (λ d. (d.user_id == u) ≡ true) view.user_decisions
      × (opened ≡ closed)
      × (closed.decision ≡ own_decision (find (λ d. d.user_id == u) others))
unfolding project_request_for_user
view_hides_other_users r u closed_at closing theirs others alone own = (
  All-select_test (λ v. v == u) _,
  All-select_test (λ d. d.user_id == u) _,
  elim (Option-cases (find (λ d. d.user_id == u) others)) [
    | inl e ↦ rw (alone, same_own u theirs others own, e, own)
    | inr (d, e) ↦ rw (alone, same_own u theirs others own, e, own)
  ],
  elim (Option-cases (find (λ d. d.user_id == u) others)) [
    | inl e ↦ rw (alone, e)
    | inr (d, e) ↦ rw (alone, e)
  ],
)

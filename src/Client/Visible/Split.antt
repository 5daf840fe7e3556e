-- ===== src/Client/Visible/Split.antt =====
-- The two parts of the list that client/nod-client-core/src/state.rs shows.
use nod.Base.{
  ℕ, zero, suc, ◌≡◌, refl, ap, ◌∙◌, inl, inr, true, false, not, List, [], ◌∷◌, ◌++◌, Bool-cases,
  select, take, insert_by, sort_by, All, All-sort_by, All-select_test,
}
use nod.Proto.Request.{Request, is_pending}
use nod.Client.Visible.{shown_before, limit_handled, visible_requests, handled_limit}

abbrev handled_requests : List Request → List Request
handled_requests rs = select (λ r. not (is_pending r.status)) rs

abbrev waiting_requests : List Request → List Request
waiting_requests rs = select (λ r. is_pending r.status) rs

pending_before_handled :
    (a b : Request)
    → is_pending a.status ≡ true
    → not (is_pending b.status) ≡ true
    → (shown_before a b ≡ true) × (shown_before b a ≡ false)
pending_before_handled a b p h = elim (Bool-cases (is_pending b.status)) [
  | inl e ↦ absurd (cc (h, e))
  | inr e ↦ (rw (p, e) refl, rw (p, e) refl)
]

insert_by-pending :
    (a : Request) (ps hs : List Request)
    → is_pending a.status ≡ true
    → All (λ r. not (is_pending r.status) ≡ true) hs
    → insert_by shown_before a (ps ++ hs) ≡ insert_by shown_before a ps ++ hs
insert_by-pending a [] [] p h = refl
insert_by-pending a [] (b ∷ hs) p h = rw ((pending_before_handled a b p h.0).1) refl
insert_by-pending a (b ∷ ps) hs p h = elim (Bool-cases (shown_before b a)) [
  | inl e ↦ rw e (ap (λ rs. b ∷ rs) (insert_by-pending a ps hs p h))
  | inr e ↦ rw e refl
]

insert_by-handled :
    (a : Request) (ps hs : List Request)
    → not (is_pending a.status) ≡ true
    → All (λ r. is_pending r.status ≡ true) ps
    → insert_by shown_before a (ps ++ hs) ≡ ps ++ insert_by shown_before a hs
insert_by-handled a [] hs n p = refl
insert_by-handled a (b ∷ ps) hs n p =
    rw ((pending_before_handled b a p.0 n).0) (ap (λ rs. b ∷ rs) (insert_by-handled a ps hs n p.1))

sort_by-shown_before :
    (rs : List Request)
    → sort_by shown_before rs
      ≡ sort_by shown_before (waiting_requests rs) ++ sort_by shown_before (handled_requests rs)
sort_by-shown_before [] = refl
sort_by-shown_before (r ∷ rs) = elim (Bool-cases (is_pending r.status)) [
  | inl e ↦
      rw (e, sort_by-shown_before rs)
        (insert_by-pending r (sort_by shown_before (waiting_requests rs))
          (sort_by shown_before (handled_requests rs)) e
          (All-sort_by (λ q. not (is_pending q.status) ≡ true) shown_before (handled_requests rs)
            (All-select_test (λ q. not (is_pending q.status)) rs)))
  | inr e ↦
      rw (e, sort_by-shown_before rs)
        (insert_by-handled r (sort_by shown_before (waiting_requests rs))
          (sort_by shown_before (handled_requests rs)) (rw e refl)
          (All-sort_by (λ q. is_pending q.status ≡ true) shown_before (waiting_requests rs)
            (All-select_test (λ q. is_pending q.status) rs)))
]

limit_handled-handled :
    (left : ℕ) (hs : List Request)
    → All (λ r. not (is_pending r.status) ≡ true) hs
    → limit_handled left hs ≡ take left hs
limit_handled-handled zero [] h = refl
limit_handled-handled (suc left) [] h = refl
limit_handled-handled zero (r ∷ hs) h = elim (Bool-cases (is_pending r.status)) [
  | inl e ↦ absurd (cc (h.0, e))
  | inr e ↦ rw e (limit_handled-handled zero hs h.1)
]
limit_handled-handled (suc left) (r ∷ hs) h = elim (Bool-cases (is_pending r.status)) [
  | inl e ↦ absurd (cc (h.0, e))
  | inr e ↦ rw e (ap (λ rs. r ∷ rs) (limit_handled-handled left hs h.1))
]

limit_handled-pending :
    (left : ℕ) (ps hs : List Request)
    → All (λ r. is_pending r.status ≡ true) ps
    → limit_handled left (ps ++ hs) ≡ ps ++ limit_handled left hs
limit_handled-pending left [] hs p = refl
limit_handled-pending zero (r ∷ ps) hs p =
    rw (p.0) (ap (λ rs. r ∷ rs) (limit_handled-pending zero ps hs p.1))
limit_handled-pending (suc left) (r ∷ ps) hs p =
    rw (p.0) (ap (λ rs. r ∷ rs) (limit_handled-pending (suc left) ps hs p.1))

-- The list that is shown has every pending request, in the order of the list, and after them the
-- first five hundred of the handled ones in their order: no handled request hides a pending one.
pub every_pending_request_is_shown :
    (rs : List Request)
    → visible_requests rs
      ≡ sort_by shown_before (select (λ r. is_pending r.status) rs)
        ++ take 500 (sort_by shown_before (select (λ r. not (is_pending r.status)) rs))
unfolding visible_requests
every_pending_request_is_shown rs =
    ap (limit_handled handled_limit) (sort_by-shown_before rs)
    ∙ limit_handled-pending handled_limit (sort_by shown_before (waiting_requests rs))
        (sort_by shown_before (handled_requests rs))
        (All-sort_by (λ q. is_pending q.status ≡ true) shown_before (waiting_requests rs)
          (All-select_test (λ q. is_pending q.status) rs))
    ∙ ap (λ hs. sort_by shown_before (waiting_requests rs) ++ hs)
        (limit_handled-handled handled_limit (sort_by shown_before (handled_requests rs)) (
          All-sort_by (λ q. not (is_pending q.status) ≡ true) shown_before (handled_requests rs)
            (All-select_test (λ q. not (is_pending q.status)) rs)))

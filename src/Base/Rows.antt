-- ===== src/Base/Rows.antt =====
-- What the operations on the rows of a table do: laws of `find`, `select`, `update` and the rest.
use Prim.Native.Nat.{ℕ, zero, suc, ◌+◌, ◌≤◌}
use mathlib.Core.Path.{◌≡◌, refl, ap, subst, sym}
use mathlib.Core.Logic.{inl, inr}
use mathlib.Core.Bool.{Bool, true, false, ◌||◌}
use mathlib.Core.Option.{none, some}
use mathlib.Core.List.{List, [], ◌∷◌, ◌++◌, Memᴰ}
use native.Mathlib.Omega.{arith}
use nod.Base.Lists.{length, take, any, find, select, count_where, update, insert_by, sort_by, All}
use nod.Base.Tests.{if◌then◌else◌, Bool-cases}

module _ {ℓ} {A : Type ℓ} where
  pub length-append : (xs ys : List A) → length (xs ++ ys) ≡ length xs + length ys
  length-append [] ys = omega arith
  length-append (x ∷ xs) ys = omega (arith, length-append xs ys)

  pub append_nil : (xs : List A) → xs ++ [] ≡ xs
  append_nil [] = refl
  append_nil (x ∷ xs) = ap (λ ys. x ∷ ys) (append_nil xs)

  pub length-take-le : (n : ℕ) (xs : List A) → length (take n xs) ≤ n
  length-take-le zero xs = omega arith
  length-take-le (suc n) [] = omega arith
  length-take-le (suc n) (x ∷ xs) = omega (arith, length-take-le n xs)

  pub length-update : (p : A → Bool) (f : A → A) (xs : List A) → length (update p f xs) ≡ length xs
  length-update p f [] = refl
  length-update p f (x ∷ xs) = ap suc (length-update p f xs)

  pub find_sound : (p : A → Bool) (xs : List A) {x : A} → find p xs ≡ some x → p x ≡ true
  find_sound p [] h = cc
  find_sound p (y ∷ ys) h = elim (Bool-cases (p y)) [
    | inl e ↦ ground (arith, e)
    | inr e ↦ find_sound p ys (rw e at h)
  ]

  pub find-none-any : (p : A → Bool) (xs : List A) → find p xs ≡ none → any p xs ≡ false
  find-none-any p [] h = refl
  find-none-any p (y ∷ ys) h = ground (arith, find-none-any p ys)

  pub find-some-any : (p : A → Bool) (xs : List A) {x : A} → find p xs ≡ some x → any p xs ≡ true
  find-some-any p [] h = cc
  find-some-any p (y ∷ ys) h = elim (Bool-cases (p y)) [
    | inl e ↦ rw e
    | inr e ↦ rw e (find-some-any p ys (rw e at h))
  ]

  pub any-append : (p : A → Bool) (xs ys : List A) → any p (xs ++ ys) ≡ (any p xs || any p ys)
  any-append p [] ys = refl
  any-append p (x ∷ xs) ys = ground (arith, any-append p xs ys)

  pub find-append :
      (p : A → Bool) (xs ys : List A) → any p xs ≡ false → find p (xs ++ ys) ≡ find p ys
  find-append p [] ys h = refl
  find-append p (x ∷ xs) ys h = ground (arith, find-append p xs ys)

  pub count_where-append :
      (p : A → Bool) (xs ys : List A)
      → count_where p (xs ++ ys) ≡ count_where p xs + count_where p ys
  count_where-append p [] ys = omega arith
  count_where-append p (x ∷ xs) ys = ground (arith, count_where-append p xs ys)

  pub count_where-none : (p : A → Bool) (xs : List A) → any p xs ≡ false → count_where p xs ≡ 0
  count_where-none p [] h = refl
  count_where-none p (x ∷ xs) h = ground (arith, count_where-none p xs)

  pub select-append :
      (p : A → Bool) (xs ys : List A) → select p (xs ++ ys) ≡ select p xs ++ select p ys
  select-append p [] ys = refl
  select-append p (x ∷ xs) ys = ground (arith, select-append p xs ys)

  pub All-append {κ} : (P : A → Type κ) (xs ys : List A) → All P xs → All P ys → All P (xs ++ ys)
  All-append P [] ys h k = k
  All-append P (x ∷ xs) ys h k = (h.0, All-append P xs ys h.1 k)

  pub All-find {κ} :
      (P : A → Type κ) (p : A → Bool) (xs : List A) {x : A} → All P xs → find p xs ≡ some x → P x
  All-find P p [] h e = absurd (cc e)
  All-find P p (y ∷ ys) h e = elim (Bool-cases (p y)) [
    | inl t ↦ let q : some y ≡ some _ = (rw t at e) in ground (arith, q, h.0)
    | inr t ↦ All-find P p ys h.1 (rw t at e)
  ]

  pub All-select {κ} :
      (P : A → Type κ) (p : A → Bool) (xs : List A) → All P xs → All P (select p xs)
  All-select P p [] h = tt
  All-select P p (x ∷ xs) h = elim (Bool-cases (p x)) [
    | inl e ↦ rw e (h.0, All-select P p xs h.1)
    | inr e ↦ rw e (All-select P p xs h.1)
  ]

  pub All-update {κ} :
      (P : A → Type κ) (p : A → Bool) (f : A → A) (xs : List A)
      → ((x : A) → p x ≡ true → P x → P (f x))
      → All P xs
      → All P (update p f xs)
  All-update P p f [] k h = tt
  All-update P p f (x ∷ xs) k h = elim (Bool-cases (p x)) [
    | inl e ↦ rw e (k x e h.0, All-update P p f xs k h.1)
    | inr e ↦ rw e (h.0, All-update P p f xs k h.1)
  ]

  pub All-update-into {κ μ} :
      (P : A → Type κ) (Q : A → Type μ) (p : A → Bool) (f : A → A) (xs : List A)
      → ((x : A) → P x → Q (if p x then f x else x))
      → All P xs
      → All Q (update p f xs)
  All-update-into P Q p f [] k h = tt
  All-update-into P Q p f (x ∷ xs) k h = (k x h.0, All-update-into P Q p f xs k h.1)

  pub All-map {κ μ} :
      (P : A → Type κ) (Q : A → Type μ) (xs : List A) → ((x : A) → P x → Q x) → All P xs → All Q xs
  All-map P Q [] k h = tt
  All-map P Q (x ∷ xs) k h = (k x h.0, All-map P Q xs k h.1)

  pub All-take {κ} : (P : A → Type κ) (n : ℕ) (xs : List A) → All P xs → All P (take n xs)
  All-take P zero xs h = tt
  All-take P (suc n) [] h = tt
  All-take P (suc n) (x ∷ xs) h = (h.0, All-take P n xs h.1)

  pub All-insert_by {κ} :
      (P : A → Type κ) (lt : A → A → Bool) (a : A) (xs : List A)
      → P a
      → All P xs
      → All P (insert_by lt a xs)
  All-insert_by P lt a [] p h = (p, tt)
  All-insert_by P lt a (b ∷ bs) p h = elim (Bool-cases (lt b a)) [
    | inl e ↦ rw e (h.0, All-insert_by P lt a bs p h.1)
    | inr e ↦ rw e (p, h)
  ]

  pub All-sort_by {κ} :
      (P : A → Type κ) (lt : A → A → Bool) (xs : List A) → All P xs → All P (sort_by lt xs)
  All-sort_by P lt [] h = tt
  All-sort_by P lt (a ∷ xs) h = All-insert_by P lt a (sort_by lt xs) h.0 (All-sort_by P lt xs h.1)

  -- What the test of a `SELECT` says of its rows.
  pub All-select_test : (p : A → Bool) (xs : List A) → All (λ x. p x ≡ true) (select p xs)
  All-select_test p [] = tt
  All-select_test p (x ∷ xs) = elim (Bool-cases (p x)) [
    | inl e ↦ rw e (e, All-select_test p xs)
    | inr e ↦ rw e (All-select_test p xs)
  ]

  -- No row comes to pass the test `q` by an `UPDATE` that makes none of its rows pass.
  pub any-update-false :
      (q p : A → Bool) (f : A → A) (xs : List A)
      → ((x : A) → Memᴰ x xs → p x ≡ true → q x ≡ false → q (f x) ≡ false)
      → any q xs ≡ false
      → any q (update p f xs) ≡ false
  any-update-false q p f [] k h = refl
  any-update-false q p f (x ∷ xs) k h =
      let rest = any-update-false q p f xs (λ y m. k y (Memᴰ.tail m)) in
      elim (Bool-cases (p x)) [
        | inl e ↦ rw e (ground (arith, k x (Memᴰ.head refl) e, rest (ground arith)))
        | inr e ↦ rw e (ground (arith, rest (ground arith)))
      ]

  pub count_where-update :
      (q p : A → Bool) (f : A → A) (xs : List A)
      → ((x : A) → q (f x) ≡ q x)
      → count_where q (update p f xs) ≡ count_where q xs
  count_where-update q p f [] k = refl
  count_where-update q p f (x ∷ xs) k = ground (arith, k x, count_where-update q p f xs k)

  pub update_none : (p : A → Bool) (f : A → A) (xs : List A) → any p xs ≡ false → update p f xs ≡ xs
  update_none p f [] h = refl
  update_none p f (x ∷ xs) h = ground (arith, update_none p f xs)

  pub count_where-zero_any : (p : A → Bool) (xs : List A) → count_where p xs ≡ 0 → any p xs ≡ false
  count_where-zero_any p [] h = refl
  count_where-zero_any p (x ∷ xs) h = ground (arith, count_where-zero_any p xs)

  -- A row that passes `p` passes `q` too: where no row passes `q`, none passes `p`.
  pub any-false_mono :
      (p q : A → Bool) (xs : List A)
      → ((x : A) → p x ≡ true → q x ≡ true)
      → any q xs ≡ false
      → any p xs ≡ false
  any-false_mono p q [] k h = refl
  any-false_mono p q (x ∷ xs) k h = ground (arith, k x, any-false_mono p q xs k)

  pub All-Memᴰ {κ} : (P : A → Type κ) (xs : List A) {x : A} → All P xs → Memᴰ x xs → P x
  All-Memᴰ P [] h m = elim m [ ]
  All-Memᴰ P (y ∷ ys) h (Memᴰ.head e) = subst P (sym e) h.0
  All-Memᴰ P (y ∷ ys) h (Memᴰ.tail m) = All-Memᴰ P ys h.1 m

  pub All-self : (xs : List A) → All (λ x. Memᴰ x xs) xs
  All-self [] = tt
  All-self (x ∷ xs) = (
    Memᴰ.head refl,
    All-map (λ y. Memᴰ y xs) (λ y. Memᴰ y (x ∷ xs)) xs (λ y m. Memᴰ.tail m) (All-self xs),
  )

  pub any-false_at :
      (p : A → Bool) (xs : List A) {x : A} → any p xs ≡ false → Memᴰ x xs → p x ≡ false
  any-false_at p [] h m = elim m [ ]
  any-false_at p (y ∷ ys) h (Memᴰ.head e) = subst (λ z. p z ≡ false) (sym e) (ground arith)
  any-false_at p (y ∷ ys) h (Memᴰ.tail m) = any-false_at p ys (ground arith) m

  pub All-both {κ μ} :
      (P : A → Type κ) (Q : A → Type μ) (xs : List A)
      → All P xs
      → All Q xs
      → All (λ x. P x × Q x) xs
  All-both P Q [] h k = tt
  All-both P Q (x ∷ xs) h k = ((h.0, k.0), All-both P Q xs h.1 k.1)

  -- A row passes the test `q` behind an `UPDATE` only if it passed `r` before.
  pub any-update-le :
      (q r p : A → Bool) (f : A → A) (xs : List A)
      → ((x : A) → q (if p x then f x else x) ≡ true → r x ≡ true)
      → any r xs ≡ false
      → any q (update p f xs) ≡ false
  any-update-le q r p f [] k h = refl
  any-update-le q r p f (x ∷ xs) k h = ground (arith, k x, any-update-le q r p f xs k)

-- ===== src/Base/Keys.antt =====
-- Tables with a key, and tables that grow: laws of `Distinct`, and rows that keep their places.
use mathlib.Core.Path.{◌≡◌, refl, subst, sym, ◌∙◌, fun_ext}
use mathlib.Core.Logic.{◌⊎◌, inl, inr}
use mathlib.Core.Bool.{Bool, true, false, false≢true}
use mathlib.Core.List.{List, [], ◌∷◌, ◌++◌, Memᴰ}
use native.Mathlib.Omega.{arith}
use nod.Base.Lists.{any, update, Distinct}
use nod.Base.Tests.{if◌then◌else◌, Bool-cases}
use nod.Base.Rows.{any-append, any-false_at, any-update-false, any-update-le}

module _ {ℓ} {A : Type ℓ} where
  -- Two rows with one key are one row.
  pub Distinct-eq :
      (same : A → A → Bool) (xs : List A)
      → ((a b : A) → same a b ≡ true → same b a ≡ true)
      → Distinct same xs
      → {a b : A} → Memᴰ a xs
      → Memᴰ b xs
      → same a b ≡ true
      → a ≡ b
  Distinct-eq same [] flip d m n e = elim m [ ]
  Distinct-eq same (x ∷ xs) flip d (Memᴰ.head p) (Memᴰ.head q) e = cc
  Distinct-eq same (x ∷ xs) flip d {a} {b} (Memᴰ.head p) (Memᴰ.tail n) e =
      absurd (false≢true (sym (any-false_at (same x) xs d.0 n) ∙ subst (λ z. same z b ≡ true) p e))
  Distinct-eq same (x ∷ xs) flip d {a} {b} (Memᴰ.tail m) (Memᴰ.head q) e = absurd (
      false≢true
        (sym (any-false_at (same x) xs d.0 m) ∙ subst (λ z. same z a ≡ true) q (flip a b e)))
  Distinct-eq same (x ∷ xs) flip d (Memᴰ.tail m) (Memᴰ.tail n) e =
      Distinct-eq same xs flip d.1 m n e

  pub Distinct-update :
      (same : A → A → Bool) (p : A → Bool) (f : A → A) (xs : List A)
      → ((a b : A) → same (f a) b ≡ same a b)
      → ((a b : A) → same a (f b) ≡ same a b)
      → Distinct same xs
      → Distinct same (update p f xs)
  Distinct-update same p f [] l r d = tt
  Distinct-update same p f (x ∷ xs) l r d = (
    any-update-false _ p f xs (λ y m k e. rw (r _ y) e) (head (Bool-cases (p x))),
    Distinct-update same p f xs l r d.1,
  )
    where
      head : (p x ≡ true) ⊎ (p x ≡ false) → any (same (if p x then f x else x)) xs ≡ false
      head (inl e) = rw e (rw (fun_ext (l x)) d.0)
      head (inr e) = rw e d.0

  pub Distinct-append :
      (same : A → A → Bool) (xs : List A) (y : A)
      → ((a b : A) → same a b ≡ true → same b a ≡ true)
      → Distinct same xs
      → any (same y) xs ≡ false
      → Distinct same (xs ++ y ∷ [])
  Distinct-append same [] y flip d h = (refl, tt)
  Distinct-append same (x ∷ xs) y flip d h = (
    any-append (same x) xs (y ∷ []) ∙ (ground (arith, flip x y, d.0)),
    Distinct-append same xs y flip d.1 (ground arith),
  )

  pub Distinct-mono :
      (same : A → A → Bool) (p : A → Bool) (f : A → A) (xs : List A)
      → ((a b : A)
          → same (if p a then f a else a) (if p b then f b else b) ≡ true
          → same a b ≡ true)
      → Distinct same xs
      → Distinct same (update p f xs)
  Distinct-mono same p f [] k d = tt
  Distinct-mono same p f (x ∷ xs) k d =
      (any-update-le _ (same x) p f xs (λ y. k x y) d.0, Distinct-mono same p f xs k d.1)

module _ {ℓ κ} {A : Type ℓ} (R : A → A → Type κ) where
  -- The rows of `xs` stand in `ys` in their places, each changed as `R` allows, before any others.
  pub data Evolves : List A → List A → Type (ℓ ⊔ κ) where
    more : (ys : List A) → Evolves [] ys
    row : {x y : A} {xs ys : List A} → R x y → Evolves xs ys → Evolves (x ∷ xs) (y ∷ ys)

  pub Evolves-refl : ((x : A) → R x x) → (xs : List A) → Evolves xs xs
  Evolves-refl k [] = more []
  Evolves-refl k (x ∷ xs) = row (k x) (Evolves-refl k xs)

  pub Evolves-update :
      (p : A → Bool) (f : A → A) (xs : List A)
      → ((x : A) → R x (if p x then f x else x))
      → Evolves xs (update p f xs)
  Evolves-update p f [] k = more []
  Evolves-update p f (x ∷ xs) k = row (k x) (Evolves-update p f xs k)

  pub Evolves-append : ((x : A) → R x x) → (xs ys : List A) → Evolves xs (xs ++ ys)
  Evolves-append k [] ys = more ys
  Evolves-append k (x ∷ xs) ys = row (k x) (Evolves-append k xs ys)

  pub Evolves-trans :
      ((x y z : A) → R x y → R y z → R x z)
      → {xs ys zs : List A} → Evolves xs ys
      → Evolves ys zs
      → Evolves xs zs
  Evolves-trans k {zs = zs} (more ys) e = more zs
  Evolves-trans k (row r e) (row s f) = row (k _ _ _ r s) (Evolves-trans k e f)

-- ===== src/Base/Tried.antt =====
-- `Result<A, E>` for an error type of its own, and `?`.
use mathlib.Core.Path.{◌≡◌, refl, ap, ◌∙◌}
use mathlib.Core.Bool.{Bool, true, false}
use mathlib.Core.Option.{Option, none, some}

pub data Tried {ℓ κ} (E : Type κ) (A : Type ℓ) : Type (ℓ ⊔ κ) where
  done : A → Tried E A
  failed : E → Tried E A

module _ {κ} {E : Type κ} where
  infixl 5 ◌>>=◌ ◌>>◌
  abbrev pub ◌>>=◌ {ℓ μ} : {A : Type ℓ} {B : Type μ} → Tried E A → (A → Tried E B) → Tried E B
  failed e >>= f = failed e
  done a >>= f = f a

  abbrev pub ◌>>◌ {μ} : {B : Type μ} → Tried E (Unit {0}) → Tried E B → Tried E B
  t >> rest = t >>= λ unit. rest

  -- `if test { return Err(e) }`.
  abbrev pub fail_if : Bool → E → Tried E (Unit {0})
  fail_if true e = failed e
  fail_if false e = done tt

  -- `.ok_or(e)`.
  abbrev pub done_or {ℓ} : {A : Type ℓ} → Option A → E → Tried E A
  done_or none e = failed e
  done_or (some a) e = done a

  pub bind_done {ℓ μ ν} :
      {A : Type ℓ} {B : Type μ} {C : Type ν} {b : B} (t : Tried E A) (f : A → Tried E B)
      → (t >>= f) ≡ done b
      → ((a : A) → t ≡ done a → f a ≡ done b → C)
      → C
  bind_done (done a) f h k = k a refl h
  bind_done (failed e) f h k = absurd (cc h)

  pub done_then {ℓ μ} :
      {A : Type ℓ} {B : Type μ} {a : A} {r : Tried E B} (t : Tried E A) (f : A → Tried E B)
      → t ≡ done a
      → f a ≡ r
      → (t >>= f) ≡ r
  done_then t f e k = ap (λ x. x >>= f) e ∙ k

  pub pass_done {μ ν} :
      {B : Type μ} {C : Type ν} {x : B} (b : Bool) (e : E) (rest : Tried E B)
      → (fail_if b e >> rest) ≡ done x
      → (b ≡ false → rest ≡ done x → C)
      → C
  pass_done true e rest h k = absurd (cc h)
  pass_done false e rest h k = k refl h

  pub done_or-some {ℓ} :
      {A : Type ℓ} (o : Option A) (e : E) {a : A} → done_or o e ≡ done a → o ≡ some a
  done_or-some none e h = absurd (cc h)
  done_or-some (some a) e h = cc h

-- `.map_err(f)`.
abbrev pub map_failed {ℓ κ μ} :
    {A : Type ℓ} {E : Type κ} {F : Type μ} → (E → F) → Tried E A → Tried F A
map_failed f (done a) = done a
map_failed f (failed e) = failed (f e)

-- ===== src/Base/Outcome.antt =====
-- `Result<_, ApiError>` (server/nod-server/crates/nod-server/src/error.rs), and a transaction: a
-- function of the database that fails with an error, and then leaves no trace (SQLite's rollback).
use Prim.Native.String.{String}
use mathlib.Core.Path.{◌≡◌, refl}
use mathlib.Core.Bool.{Bool, true, false}
use mathlib.Core.Logic.{◌⊎◌, inl, inr}
use mathlib.Core.Option.{Option, none, some}

pub data ApiError : Type 0 where
  client_update_required unauthorized forbidden not_found : ApiError
  bad_request conflict internal : String → ApiError

pub data Result {ℓ} (A : Type ℓ) : Type ℓ where
  ok : A → Result A
  err : ApiError → Result A

-- `?`: the rest of a function runs on the value, and an error is returned at once.
abbrev pub ◌>>=◌ {ℓ κ} : {A : Type ℓ} {C : Type κ} (m : Result A) (rest : A → Result C) → Result C
err problem >>= rest = err problem
ok value >>= rest = rest value

abbrev pub ◌>>◌ {κ} : {C : Type κ} (check : Result (Unit {0})) (rest : Result C) → Result C
check >> rest = check >>= λ unit. rest

infixl 5 ◌>>=◌ ◌>>◌
-- A `Result` whose error is a text.
pub data Checked {ℓ} (A : Type ℓ) : Type ℓ where
  value : A → Checked A
  fault : String → Checked A

-- `.map_err(|e| ApiError::BadRequest(e.to_string()))` and the like.
abbrev pub map_err {ℓ} : {A : Type ℓ} → (String → ApiError) → Checked A → Result A
map_err f (value a) = ok a
map_err f (fault e) = err (f e)

-- `if test { return Err(e) }`.
abbrev pub refuse_if : Bool → ApiError → Result (Unit {0})
refuse_if true e = err e
refuse_if false e = ok tt

-- `.ok_or(e)`.
abbrev pub ok_or {ℓ} : {A : Type ℓ} → Option A → ApiError → Result A
ok_or none e = err e
ok_or (some a) e = ok a

pub refuse_if-ok : (b : Bool) (e : ApiError) {u : Unit {0}} → refuse_if b e ≡ ok u → b ≡ false
refuse_if-ok true e h = cc
refuse_if-ok false e h = refl

pub ok_or-eq-ok {ℓ} :
    {A : Type ℓ} (o : Option A) (e : ApiError) {a : A} → ok_or o e ≡ ok a → o ≡ some a
ok_or-eq-ok none e h = cc
ok_or-eq-ok (some a) e h = cc

-- The same with the rest of the argument behind it, which sees the value as a variable.
pub bind_ok {ℓ κ μ} :
    {A : Type ℓ} {B : Type κ} {C : Type μ} {b : B} (m : Result A) (f : A → Result B)
    → (m >>= f) ≡ ok b
    → ((a : A) → m ≡ ok a → f a ≡ ok b → C)
    → C
bind_ok (ok a) f h k = k a refl h
bind_ok (err e) f h k = absurd (cc h)

pub then_ok {κ μ} :
    {B : Type κ} {C : Type μ} {b : B} (m : Result (Unit {0})) (k : Result B)
    → (m >> k) ≡ ok b
    → (m ≡ ok tt → k ≡ ok b → C)
    → C
then_ok (ok tt) k h c = c refl h
then_ok (err e) k h c = absurd (cc h)

pub guard_ok {κ μ} :
    {B : Type κ} {C : Type μ} {x : B} (b : Bool) (e : ApiError) (k : Result B)
    → (refuse_if b e >> k) ≡ ok x
    → (b ≡ false → k ≡ ok x → C)
    → C
guard_ok true e k h c = absurd (cc h)
guard_ok false e k h c = c refl h

pub Result-cases {ℓ} :
    {A : Type ℓ} (r : Result A) → ((a : A) × (r ≡ ok a)) ⊎ ((e : ApiError) × (r ≡ err e))
Result-cases (ok a) = inl (a, refl)
Result-cases (err e) = inr (e, refl)

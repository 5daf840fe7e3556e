-- ===== src/Base/Entries.antt =====
-- What holds of all the entries of a Rust map (Base/Dict), and of its values.
use Prim.Native.Nat.{◌≤◌}
use Prim.Native.String.{String}
use mathlib.Core.Path.{◌≡◌, refl, ap}
use mathlib.Core.Logic.{inl, inr}
use mathlib.Core.Bool.{Bool}
use mathlib.Core.Option.{some}
use mathlib.Core.List.{List, [], ◌∷◌}
use text.Mathlib.Text.{◌==◌}
use text.Mathlib.TextEquality.{eq_iff}
use text.Mathlib.TextPositions.{eq_refl}
use native.Mathlib.Omega.{arith}
use nod.Base.Tests.{Bool-cases}
use nod.Base.Lists.{All}
use nod.Base.Rows.{All-insert_by, All-map}
use nod.Base.Text.{text_lt}
use nod.Base.Dict.{
  contains_key, replace, lookup, put, values, UniqueKeys, count_values, counts_for,
  lookup-contains_key,
}

module _ {ℓ} {V : Type ℓ} where
  All-replace {κ} :
      (P : String × V → Type κ) (k : String) (v : V) (m : List (String × V))
      → P (k, v)
      → All P m
      → All P (replace k v m)
  All-replace P k v [] p h = tt
  All-replace P k v ((j, w) ∷ m) p h = elim (Bool-cases (j == k)) [
    | inl e ↦ rw e (p, h.1)
    | inr e ↦ rw e (h.0, All-replace P k v m p h.1)
  ]

  pub All-put {κ} :
      (P : String × V → Type κ) (k : String) (v : V) (m : List (String × V))
      → P (k, v)
      → All P m
      → All P (put k v m)
  unfolding put
  All-put P k v m p h = elim (Bool-cases (contains_key k m)) [
    | inl e ↦ rw e (All-replace P k v m p h)
    | inr e ↦ rw e (All-insert_by P (λ (a b : String × V). text_lt a.0 b.0) (k, v) m p h)
  ]

  -- A value counts at most as much as all of them.
  pub counts_for-lookup-le :
      (q : V → Bool) (k : String) (m : List (String × V))
      → counts_for q (lookup k m) ≤ count_values q m
  counts_for-lookup-le q k [] = omega arith
  counts_for-lookup-le q k ((j, w) ∷ m) = ground (arith, counts_for-lookup-le q k m)

  -- Each entry is what its key finds.
  pub All-lookup : (m : List (String × V)) → UniqueKeys m → All (λ e. lookup e.0 m ≡ some e.1) m
  All-lookup [] u = tt
  All-lookup ((j, w) ∷ m) u = (
    rw (eq_refl j) refl,
    All-map (λ e. lookup e.0 m ≡ some e.1) (λ e. lookup e.0 ((j, w) ∷ m) ≡ some e.1) m
        (λ e h. lookup-later e h) (All-lookup m u.1),
  )
    where
      lookup-later : (e : String × V) → lookup e.0 m ≡ some e.1 → lookup e.0 ((j, w) ∷ m) ≡ some e.1
      lookup-later e h = elim (Bool-cases (j == e.0)) [
        | inl t ↦
            absurd (cc (lookup-contains_key j m u.0, h, ap (λ k. lookup k m) ((eq_iff j e.0).0 t)))
        | inr t ↦ rw t h
      ]

  -- What holds of each entry's value holds of the values.
  pub All-values {κ} :
      (P : V → Type κ) (m : List (String × V)) → All (λ e. P e.1) m → All P (values m)
  All-values P [] h = tt
  All-values P (e ∷ m) h = (h.0, All-values P m h.1)

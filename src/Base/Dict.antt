-- ===== src/Base/Dict.antt =====
-- Rust's `BTreeMap<String, V>`: a list of entries in the order of the keys.
use Prim.Native.Nat.{ℕ, suc, ◌+◌}
use Prim.Native.String.{String}
use mathlib.Core.Path.{◌≡◌, refl, subst, ◌∙◌}
use mathlib.Core.Logic.{inl, inr}
use mathlib.Core.Bool.{Bool, true, false, not}
use mathlib.Core.Option.{Option, none, some}
use mathlib.Core.List.{List, [], ◌∷◌, map}
use text.Mathlib.Text.{◌==◌}
use text.Mathlib.TextEquality.{eq_iff}
use native.Mathlib.Omega.{arith}
use nod.Base.Tests.{if◌then◌else◌, Bool-cases}
use nod.Base.Lists.{select, insert_by}
use nod.Base.Text.{text_lt}

abbrev pub one_if : Bool → ℕ
one_if true = 1
one_if false = 0

module _ {ℓ} {V : Type ℓ} where
  -- `get`, `contains_key`.
  abbrev pub lookup : String → List (String × V) → Option V
  lookup k [] = none
  lookup k ((j, v) ∷ m) = if j == k then some v else lookup k m

  abbrev pub contains_key : String → List (String × V) → Bool
  contains_key k [] = false
  contains_key k ((j, v) ∷ m) = if j == k then true else contains_key k m

  abbrev pub replace : String → V → List (String × V) → List (String × V)
  replace k v [] = []
  replace k v ((j, w) ∷ m) = if j == k then (k, v) ∷ m else (j, w) ∷ replace k v m

  -- `insert`: in the key's place, or else before the first greater key.
  unfoldable pub put : String → V → List (String × V) → List (String × V)
  put k v m =
      if contains_key k m
      then replace k v m
      else insert_by (λ (a b : String × V). text_lt a.0 b.0) (k, v) m

  unfoldable pub remove : String → List (String × V) → List (String × V)
  remove k m = select (λ e. not (e.0 == k)) m

  abbrev pub values : List (String × V) → List V
  values m = map (λ e. e.1) m

  abbrev pub entry_or : V → Option V → V
  entry_or d none = d
  entry_or d (some v) = v

  pub lookup-contains_key :
      (k : String) (m : List (String × V)) → contains_key k m ≡ false → lookup k m ≡ none
  lookup-contains_key k [] h = refl
  lookup-contains_key k ((j, v) ∷ m) h = ground (arith, lookup-contains_key k m)

  lookup-replace :
      (i k : String) (v : V) (m : List (String × V))
      → contains_key k m ≡ true
      → lookup i (replace k v m) ≡ (if k == i then some v else lookup i m)
  lookup-replace i k v [] h = absurd (cc h)
  lookup-replace i k v ((j, w) ∷ m) h =
      ground (arith, eq_iff k i, eq_iff j k, eq_iff j i, lookup-replace i k v m)

  lookup-insert_by :
      (i k : String) (v : V) (m : List (String × V))
      → contains_key k m ≡ false
      → lookup i (insert_by (λ (a b : String × V). text_lt a.0 b.0) (k, v) m)
        ≡ (if k == i then some v else lookup i m)
  lookup-insert_by i k v [] h = refl
  lookup-insert_by i k v ((j, w) ∷ m) h = elim (Bool-cases (text_lt j k)) [
    | inl e ↦ rw e (ground (arith, eq_iff k i, eq_iff j k, eq_iff j i, lookup-insert_by i k v m))
    | inr e ↦ rw e refl
  ]

  pub lookup-put :
      (i k : String) (v : V) (m : List (String × V))
      → lookup i (put k v m) ≡ (if k == i then some v else lookup i m)
  unfolding put
  lookup-put i k v m = elim (Bool-cases (contains_key k m)) [
    | inl e ↦ rw e (lookup-replace i k v m e)
    | inr e ↦ rw e (lookup-insert_by i k v m e)
  ]

  pub lookup-remove :
      (i k : String) (m : List (String × V))
      → lookup i (remove k m) ≡ (if k == i then none else lookup i m)
  unfolding remove
  lookup-remove i k [] = ground arith
  lookup-remove i k ((j, w) ∷ m) = elim (Bool-cases (j == k)) [
    | inl e ↦ rw e (lookup-remove i k m ∙ ground (arith, eq_iff k i, eq_iff j k, eq_iff j i, e))
    | inr e ↦ rw e (ground (arith, eq_iff k i, eq_iff j k, eq_iff j i, lookup-remove i k m))
  ]

  -- The values that pass a test.
  abbrev pub count_values : (V → Bool) → List (String × V) → ℕ
  count_values q [] = 0
  count_values q ((j, w) ∷ m) = if q w then suc (count_values q m) else count_values q m

  -- What an entry counts for.
  abbrev pub counts_for : (V → Bool) → Option V → ℕ
  counts_for q none = 0
  counts_for q (some v) = one_if (q v)

  count_values-replace :
      (q : V → Bool) (k : String) (v : V) (m : List (String × V))
      → contains_key k m ≡ true
      → count_values q (replace k v m) + counts_for q (lookup k m) ≡ count_values q m + one_if (q v)
  count_values-replace q k v [] h = absurd (cc h)
  count_values-replace q k v ((j, w) ∷ m) h = elim (Bool-cases (j == k)) [
    | inl e ↦ rw e (ground arith)
    | inr e ↦ rw e (ground (arith, count_values-replace q k v m (rw e at h)))
  ]

  count_values-insert_by :
      (q : V → Bool) (k : String) (v : V) (m : List (String × V))
      → count_values q (insert_by (λ (a b : String × V). text_lt a.0 b.0) (k, v) m)
        ≡ count_values q m + one_if (q v)
  count_values-insert_by q k v [] = ground arith
  count_values-insert_by q k v ((j, w) ∷ m) = elim (Bool-cases (text_lt j k)) [
    | inl e ↦ rw e (ground (arith, count_values-insert_by q k v m))
    | inr e ↦ rw e (ground arith)
  ]

  -- A new value at a key takes the place of the old one in every count.
  pub count_values-put :
      (q : V → Bool) (k : String) (v : V) (m : List (String × V))
      → count_values q (put k v m) + counts_for q (lookup k m) ≡ count_values q m + one_if (q v)
  unfolding put
  count_values-put q k v m = elim (Bool-cases (contains_key k m)) [
    | inl e ↦ rw e (count_values-replace q k v m e)
    | inr e ↦ rw (e, lookup-contains_key k m e) (omega (arith, count_values-insert_by q k v m))
  ]

  -- No key stands twice.
  abbrev pub UniqueKeys : List (String × V) → Type 0
  UniqueKeys [] = Unit
  UniqueKeys ((j, w) ∷ m) = (contains_key j m ≡ false) × UniqueKeys m

  contains_key-replace :
      (i k : String) (v : V) (m : List (String × V))
      → contains_key i m ≡ false
      → (k == i) ≡ false
      → contains_key i (replace k v m) ≡ false
  contains_key-replace i k v [] h n = refl
  contains_key-replace i k v ((j, w) ∷ m) h n = elim (Bool-cases (j == k)) [
    | inl e ↦ rw e (ground (arith, n, h))
    | inr e ↦ rw e (ground (arith, contains_key-replace i k v m))
  ]

  contains_key-insert_by :
      (i k : String) (v : V) (m : List (String × V))
      → contains_key i m ≡ false
      → (k == i) ≡ false
      → contains_key i (insert_by (λ (a b : String × V). text_lt a.0 b.0) (k, v) m) ≡ false
  contains_key-insert_by i k v [] h n = ground (arith, n)
  contains_key-insert_by i k v ((j, w) ∷ m) h n = elim (Bool-cases (text_lt j k)) [
    | inl e ↦ rw e (ground (arith, contains_key-insert_by i k v m))
    | inr e ↦ rw e (ground (arith, n, h))
  ]

  replace-UniqueKeys :
      (k : String) (v : V) (m : List (String × V)) → UniqueKeys m → UniqueKeys (replace k v m)
  replace-UniqueKeys k v [] u = tt
  replace-UniqueKeys k v ((j, w) ∷ m) u = elim (Bool-cases (j == k)) [
    | inl e ↦ rw e (subst (λ x. contains_key x m ≡ false) ((eq_iff j k).0 e) u.0, u.1)
    | inr e ↦ rw e (
      contains_key-replace j k v m u.0 (ground (arith, eq_iff k j, eq_iff j k, e)),
      replace-UniqueKeys k v m u.1,
    )
  ]

  insert_by-UniqueKeys :
      (k : String) (v : V) (m : List (String × V))
      → contains_key k m ≡ false
      → UniqueKeys m
      → UniqueKeys (insert_by (λ (a b : String × V). text_lt a.0 b.0) (k, v) m)
  insert_by-UniqueKeys k v [] h u = (refl, tt)
  insert_by-UniqueKeys k v ((j, w) ∷ m) h u = elim (Bool-cases (text_lt j k)) [
    | inl e ↦ rw e (
      contains_key-insert_by j k v m u.0 (ground (arith, h, eq_iff k j, eq_iff j k)),
      insert_by-UniqueKeys k v m (ground (arith, h)) u.1,
    )
    | inr e ↦ rw e (h, u)
  ]

  pub put-UniqueKeys :
      (k : String) (v : V) (m : List (String × V)) → UniqueKeys m → UniqueKeys (put k v m)
  unfolding put
  put-UniqueKeys k v m u = elim (Bool-cases (contains_key k m)) [
    | inl e ↦ rw e (replace-UniqueKeys k v m u)
    | inr e ↦ rw e (insert_by-UniqueKeys k v m e u)
  ]

  contains_key-select :
      (i : String) (p : String × V → Bool) (m : List (String × V))
      → contains_key i m ≡ false
      → contains_key i (select p m) ≡ false
  contains_key-select i p [] h = refl
  contains_key-select i p (e ∷ m) h = ground (arith, contains_key-select i p m)

  pub select-UniqueKeys :
      (p : String × V → Bool) (m : List (String × V)) → UniqueKeys m → UniqueKeys (select p m)
  select-UniqueKeys p [] u = tt
  select-UniqueKeys p (e ∷ m) u = elim (Bool-cases (p e)) [
    | inl t ↦ rw t (contains_key-select e.0 p m u.0, select-UniqueKeys p m u.1)
    | inr t ↦ rw t (select-UniqueKeys p m u.1)
  ]

  contains_key-map :
      (i : String) (f : String × V → String × V) (m : List (String × V))
      → ((e : String × V) → (f e).0 ≡ e.0)
      → contains_key i (map f m) ≡ contains_key i m
  contains_key-map i f [] k = refl
  contains_key-map i f (e ∷ m) k = rw (k e, contains_key-map i f m k) refl

  pub map-UniqueKeys :
      (f : String × V → String × V) (m : List (String × V))
      → ((e : String × V) → (f e).0 ≡ e.0)
      → UniqueKeys m
      → UniqueKeys (map f m)
  map-UniqueKeys f [] k u = tt
  map-UniqueKeys f (e ∷ m) k u =
      (rw (k e, contains_key-map e.0 f m k) u.0, map-UniqueKeys f m k u.1)

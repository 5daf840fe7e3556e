-- ===== src/Base/Lines.antt =====
-- Texts of several lines: what can be read back of lines that are joined.
use Prim.Native.Char.{Char, code}
use Prim.Native.String.{String, [], ◌∷◌, ◌++◌}
use mathlib.Core.Path.{◌≡◌, refl, sym, subst, ap, ap₂, ◌∙◌}
use mathlib.Core.Bool.{Bool, true, false, not, ◌&&◌}
use text.Mathlib.TextLemmas.{
  head-eq_of_cons-eq, tail-eq_of_cons-eq, append_assoc, append_cancel_right, nil-append,
  cons-append,
}
use nod.Base.Tests.{eqb}
use nod.Base.Text.{every_char}

-- A text without a line feed.
abbrev pub OneLine : String → Type 0
OneLine s = every_char (λ c. not (eqb c 10)) s ≡ true

abbrev pub line_feed : Char
line_feed = "\n"

and_left : (a b : Bool) → (a && b) ≡ true → a ≡ true
and_left true b h = refl
and_left false b h = h

and_right : (a b : Bool) → (a && b) ≡ true → b ≡ true
and_right true b h = h
and_right false b h = absurd (cc h)

OneLine-tail : (c : Char) (s : String) → OneLine (c ∷ s) → OneLine s
OneLine-tail c s p = and_right (not (eqb (code c) 10)) (every_char (λ d. not (eqb d 10)) s) p

no_line_feed :
    (c : Char) (s t u : String) → OneLine (c ∷ s) → Path String (line_feed ∷ t) (c ∷ u) → ⊥
no_line_feed c s t u p e = cc (p, ap (λ d. not (eqb (code d) 10)) (head-eq_of_cons-eq e))

pub OneLine-append : (s t : String) → OneLine s → OneLine t → OneLine (s ++ t)
OneLine-append [] t p q = rw (nil-append t) q
OneLine-append (c ∷ s) t p q =
    rw
      (
        cons-append c s t,
        and_left (not (eqb (code c) 10)) (every_char (λ d. not (eqb d 10)) s) p,
        OneLine-append s t (OneLine-tail c s p) q,
      )
      refl

line_feed_inside : (s t : String) → OneLine (s ++ (line_feed ∷ t)) → ⊥
line_feed_inside [] t p = cc (rw (nil-append (line_feed ∷ t)) at p)
line_feed_inside (c ∷ s) t p =
    line_feed_inside s t
      (OneLine-tail c (s ++ (line_feed ∷ t)) (rw (cons-append c s (line_feed ∷ t)) at p))

pub first_line_inj :
    (l m x y : String)
    → OneLine l
    → OneLine m
    → Path String (l ++ (line_feed ∷ x)) (m ++ (line_feed ∷ y))
    → (Path String l m) × (Path String x y)
first_line_inj [] [] x y p q e = (
  refl,
  tail-eq_of_cons-eq {x = line_feed} {y = line_feed}
      (sym (nil-append (line_feed ∷ x)) ∙ e ∙ nil-append (line_feed ∷ y)),
)
first_line_inj [] (d ∷ m) x y p q e = absurd (
    no_line_feed d m x (m ++ (line_feed ∷ y)) q
      (sym (nil-append (line_feed ∷ x)) ∙ e ∙ cons-append d m (line_feed ∷ y)))
first_line_inj (c ∷ l) [] x y p q e = absurd (
    no_line_feed c l y (l ++ (line_feed ∷ x)) p
      (sym (nil-append (line_feed ∷ y)) ∙ sym e ∙ cons-append c l (line_feed ∷ x)))
first_line_inj (c ∷ l) (d ∷ m) x y p q e =
    let e1 : Path String (c ∷ (l ++ (line_feed ∷ x))) (d ∷ (m ++ (line_feed ∷ y))) =
      sym (cons-append c l (line_feed ∷ x)) ∙ e ∙ cons-append d m (line_feed ∷ y) in
    let r =
      first_line_inj l m x y (OneLine-tail c l p) (OneLine-tail d m q) (tail-eq_of_cons-eq e1) in
    (ap₂ (λ a s. a ∷ s) (head-eq_of_cons-eq e1) r.0, r.1)

pub last_line_inj :
    (x y l m : String)
    → OneLine l
    → OneLine m
    → Path String (x ++ (line_feed ∷ l)) (y ++ (line_feed ∷ m))
    → (Path String x y) × (Path String l m)
last_line_inj [] [] l m p q e = (
  refl,
  tail-eq_of_cons-eq {x = line_feed} {y = line_feed}
      (sym (nil-append (line_feed ∷ l)) ∙ e ∙ nil-append (line_feed ∷ m)),
)
last_line_inj [] (d ∷ y) l m p q e =
    let e1 : Path String (line_feed ∷ l) (d ∷ (y ++ (line_feed ∷ m))) =
      sym (nil-append (line_feed ∷ l)) ∙ e ∙ cons-append d y (line_feed ∷ m) in
    absurd (line_feed_inside y m (subst OneLine (tail-eq_of_cons-eq e1) p))
last_line_inj (c ∷ x) [] l m p q e =
    let e1 : Path String (line_feed ∷ m) (c ∷ (x ++ (line_feed ∷ l))) =
      sym (nil-append (line_feed ∷ m)) ∙ sym e ∙ cons-append c x (line_feed ∷ l) in
    absurd (line_feed_inside x l (subst OneLine (tail-eq_of_cons-eq e1) q))
last_line_inj (c ∷ x) (d ∷ y) l m p q e =
    let e1 : Path String (c ∷ (x ++ (line_feed ∷ l))) (d ∷ (y ++ (line_feed ∷ m))) =
      sym (cons-append c x (line_feed ∷ l)) ∙ e ∙ cons-append d y (line_feed ∷ m) in
    let r = last_line_inj x y l m p q (tail-eq_of_cons-eq e1) in
    (ap₂ (λ a s. a ∷ s) (head-eq_of_cons-eq e1) r.0, r.1)

line_break : (x : String) → Path String ("\n" ++ x) (line_feed ∷ x)
line_break x = cons-append line_feed [] x ∙ ap (λ s. line_feed ∷ s) (nil-append x)

broken : (l x : String) → Path String (l ++ ("\n" ++ x)) (l ++ (line_feed ∷ x))
broken l x = ap (λ s. l ++ s) (line_break x)

-- The first of joined lines, and the rest, are determined.
pub join_inj :
    (l m x y : String)
    → OneLine l
    → OneLine m
    → Path String (l ++ ("\n" ++ x)) (m ++ ("\n" ++ y))
    → (Path String l m) × (Path String x y)
join_inj l m x y p q e = first_line_inj l m x y p q (sym (broken l x) ∙ e ∙ broken m y)

regroup : (x y z : String) → Path String (x ++ (line_feed ∷ (y ++ z))) ((x ++ (line_feed ∷ y)) ++ z)
regroup x y z =
    ap (λ s. x ++ s) (sym (cons-append line_feed y z)) ∙ sym (append_assoc x (line_feed ∷ y) z)

three_lines :
    (n s h : String)
    → Path String
        (n ++ ("\n" ++ (s ++ ("\n" ++ (h ++ ("\n" ++ ""))))))
        (((n ++ (line_feed ∷ s)) ++ (line_feed ∷ h)) ++ (line_feed ∷ []))
three_lines n s h =
    broken n (s ++ ("\n" ++ (h ++ ("\n" ++ ""))))
    ∙ ap (λ t. n ++ (line_feed ∷ t)) (broken s (h ++ ("\n" ++ "")))
    ∙ ap (λ t. n ++ (line_feed ∷ (s ++ (line_feed ∷ t)))) (broken h "")
    ∙ regroup n s (line_feed ∷ (h ++ (line_feed ∷ [])))
    ∙ regroup (n ++ (line_feed ∷ s)) h (line_feed ∷ [])

-- The last two of joined lines are determined, and so is the text before them, whatever it holds.
pub last_lines_inj :
    (n m s t h k : String)
    → OneLine s
    → OneLine t
    → OneLine h
    → OneLine k
    → Path String
        (n ++ ("\n" ++ (s ++ ("\n" ++ (h ++ ("\n" ++ ""))))))
        (m ++ ("\n" ++ (t ++ ("\n" ++ (k ++ ("\n" ++ ""))))))
    → (Path String n m) × (Path String s t) × (Path String h k)
last_lines_inj n m s t h k ps pt ph pk e =
    let last = last_line_inj (n ++ (line_feed ∷ s)) (m ++ (line_feed ∷ t)) h k ph pk (
      append_cancel_right _ _ (line_feed ∷ []) (sym (three_lines n s h) ∙ e ∙ three_lines m t k)) in
    let before = last_line_inj n m s t ps pt last.0 in (before.0, before.1, last.1)

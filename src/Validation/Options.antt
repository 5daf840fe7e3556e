-- ===== src/Validation/Options.antt =====
-- The check of a request's options.
use nod.Base.{
  ◌≡◌, refl, String, Bool, false, ◌==◌, List, [], ◌∷◌, any, All, All-map, Distinct, ok, bad_request,
  then_ok, guard_ok, arith, trim, is_blank,
}
use nod.Proto.Request.{RequestOption}
use nod.Validation.{validate_options, validate_options_from, validate_id}

abbrev pub same_option : RequestOption → RequestOption → Bool
same_option a b = a.id == b.id

not_any_seen :
    (o : RequestOption) (seen : List String) (os : List RequestOption)
    → All (λ x. any (λ id. id == x.id) (o.id ∷ seen) ≡ false) os
    → any (same_option o) os ≡ false
not_any_seen o seen [] h = refl
not_any_seen o seen (x ∷ xs) h = ground (arith, not_any_seen o seen xs h.1)

validate_from_lem :
    (seen : List String) (os : List RequestOption)
    → validate_options_from seen os ≡ ok tt
    → Distinct same_option os
      × All (λ o. validate_id o.id "option id" ≡ ok tt) os
      × All (λ o. is_blank (trim o.label) ≡ false) os
      × All (λ o. any (λ id. id == o.id) seen ≡ false) os
unfolding validate_options_from
validate_from_lem seen [] h = (tt, tt, tt, tt)
validate_from_lem seen (o ∷ os) h = then_ok (validate_id o.id "option id") _ h λ slug h1.
    guard_ok (is_blank (trim o.label)) (bad_request "option label is required") _ h1 λ label h2.
      guard_ok (any (λ id. id == o.id) seen) (bad_request "option IDs must be unique") _ h2
        λ new h3.
          let k = validate_from_lem (o.id ∷ seen) os h3 in
          (
            (not_any_seen o seen os k.3, k.0),
            (slug, k.1),
            (label, k.2),
            (new, All-map _ _ os (λ x e. ground arith) k.3),
          )

-- The options of a request that is accepted have distinct ids, so that a decision names one of them;
-- every id is a slug of at most 80 bytes, and no label is blank.
pub option_ids_differ :
    (os : List RequestOption)
    → validate_options os ≡ ok tt
    → Distinct same_option os
      × All (λ o. validate_id o.id "option id" ≡ ok tt) os
      × All (λ o. is_blank (trim o.label) ≡ false) os
unfolding validate_options
option_ids_differ os h = let k = validate_from_lem [] os h in (k.0, k.1, k.2)

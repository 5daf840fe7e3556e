-- ===== src/Client/Counting.antt =====
-- The counter of pending requests in client/nod-client-core/src/state.rs.
use nod.Base.{
  ℕ, ◌+◌, ◌-◌, ◌≡◌, refl, sym, ◌∙◌, inl, inr, String, Bool, true, false, ◌&&◌, Option, none, some,
  List, [], ◌∷◌, ◌==◌, map, ltb, if◌then◌else◌, Bool-cases, arith, eq_iff, UniqueKeys,
  put-UniqueKeys, select-UniqueKeys, map-UniqueKeys, lookup-contains_key, lookup, put, values,
  entry_or, count_values, one_if, lookup-put, All,
}
use nod.Proto.Request.{Request, is_pending}
use nod.Client.Pending.{
  increment_pending_count, decrement_pending_count, count_from, channels_from, pending_requests,
}

-- The count that is shown for a channel.
abbrev pub count_at : String → List (String × ℕ) → ℕ
count_at c counts = entry_or 0 (lookup c counts)

abbrev pub waits_in : String → Request → Bool
waits_in c r = is_pending r.status && (r.channel_id == c)

pub count_at-increment :
    (c channel_id : String) (counts : List (String × ℕ))
    → count_at c (increment_pending_count counts channel_id)
      ≡ count_at c counts + one_if (channel_id == c)
unfolding increment_pending_count
count_at-increment c channel_id counts =
    rw (lookup-put c channel_id (count_at channel_id counts + 1) counts)
      (elim (Bool-cases (channel_id == c)) [
        | inl e ↦ rw (e, (eq_iff channel_id c).0 e) refl
        | inr e ↦ rw e (omega arith)
      ])

pub count_at-decrement :
    (c channel_id : String) (counts : List (String × ℕ))
    → UniqueKeys counts
    → count_at c (decrement_pending_count counts channel_id)
      ≡ count_at c counts - one_if (channel_id == c)
unfolding decrement_pending_count
count_at-decrement c channel_id [] u = omega arith
count_at-decrement c channel_id ((j, n) ∷ rest) u = elim (Bool-cases (j == channel_id)) [
  | inl e ↦ rw e (
      ground (
        arith,
        eq_iff j c,
        eq_iff channel_id c,
        eq_iff j channel_id,
        lookup-contains_key j rest u.0,
        count_at-decrement c channel_id rest u.1,
      ))
  | inr e ↦ rw e (
      ground (
        arith,
        eq_iff j c,
        eq_iff channel_id c,
        eq_iff j channel_id,
        lookup-contains_key j rest u.0,
        count_at-decrement c channel_id rest u.1,
      ))
]

pub count_at-count_from :
    (c : String) (counts : List (String × ℕ)) (m : List (String × Request))
    → count_at c (count_from counts (pending_requests (values m)))
      ≡ count_at c counts + count_values (waits_in c) m
count_at-count_from c counts [] = omega arith
count_at-count_from c counts ((i, r) ∷ m) = elim (Bool-cases (is_pending r.status)) [
  | inl e ↦ rw e (
      count_at-count_from c (increment_pending_count counts r.channel_id) m
      ∙ ground (arith, count_at-increment c r.channel_id counts, e))
  | inr e ↦ rw e (count_at-count_from c counts m)
]

pub increment_pending_count-UniqueKeys :
    (channel_id : String) (counts : List (String × ℕ))
    → UniqueKeys counts
    → UniqueKeys (increment_pending_count counts channel_id)
unfolding increment_pending_count
increment_pending_count-UniqueKeys channel_id counts u =
    put-UniqueKeys channel_id (count_at channel_id counts + 1) counts u

pub decrement_pending_count-UniqueKeys :
    (channel_id : String) (counts : List (String × ℕ))
    → UniqueKeys counts
    → UniqueKeys (decrement_pending_count counts channel_id)
unfolding decrement_pending_count
decrement_pending_count-UniqueKeys channel_id counts u =
    select-UniqueKeys (λ e. ltb 0 e.1)
      (map (λ e. if e.0 == channel_id then (e.0, e.1 - 1) else e) counts)
      (map-UniqueKeys (λ e. if e.0 == channel_id then (e.0, e.1 - 1) else e) counts
        (λ e. if_keeps_key (e.0 == channel_id) e) u)
  where
    if_keeps_key : (b : Bool) (e : String × ℕ) → (if b then (e.0, e.1 - 1) else e).0 ≡ e.0
    if_keeps_key true e = refl
    if_keeps_key false e = refl

pub count_from-UniqueKeys :
    (counts : List (String × ℕ)) (rs : List Request)
    → UniqueKeys counts
    → UniqueKeys (count_from counts rs)
count_from-UniqueKeys counts [] u = u
count_from-UniqueKeys counts (r ∷ rs) u =
    count_from-UniqueKeys (increment_pending_count counts r.channel_id) rs
      (increment_pending_count-UniqueKeys r.channel_id counts u)

-- The channel in which a request waits.
abbrev pub pending_channel : Option Request → Option String
pending_channel none = none
pending_channel (some r) = if is_pending r.status then some r.channel_id else none

-- The entries that stand under their requests' ids.
abbrev pub ById : List (String × Request) → Type 0
ById m = UniqueKeys m × All (λ e. e.1.id ≡ e.0) m

abbrev or_else : Option String → Option String → Option String
or_else none b = b
or_else (some a) b = some a

pub lookup-channels_from :
    (i : String) (known : List (String × String)) (m : List (String × Request))
    → ById m
    → lookup i (channels_from known (pending_requests (values m)))
      ≡ or_else (pending_channel (lookup i m)) (lookup i known)
lookup-channels_from i known [] h = refl
lookup-channels_from i known ((j, r) ∷ m) h = elim (Bool-cases (is_pending r.status)) [
  | inl e ↦
      rw
        (
          e,
          lookup-channels_from i (put r.id r.channel_id known) m (h.0.1, h.1.1),
          lookup-put i r.id r.channel_id known,
          h.1.0,
        )
        (elim (Bool-cases (j == i)) [
          | inl t ↦ rw (t, e, sym ((eq_iff j i).0 t), lookup-contains_key j m h.0.0) refl
          | inr t ↦ rw t refl
        ])
  | inr e ↦
      rw (e, lookup-channels_from i known m (h.0.1, h.1.1))
        (elim (Bool-cases (j == i)) [
          | inl t ↦ rw (t, e, sym ((eq_iff j i).0 t), lookup-contains_key j m h.0.0) refl
          | inr t ↦ rw t refl
        ])
]

pub or_else-none : (o : Option String) → or_else o none ≡ o
or_else-none none = refl
or_else-none (some a) = refl

-- ===== src/Requests/History/Laws.antt =====
-- Invariants of the abstract machine, by induction on its steps.
use nod.Base.{
  ◌+◌, ◌≡◌, refl, ap, sym, ◌∙◌, ◌⊎◌, inl, inr, String, true, ◌||◌, Option, none, some, [], ◌∷◌,
  ◌==◌, if◌then◌else◌, Distinct, Distinct-append, Distinct-mono, Evolves, Evolves-update,
  Evolves-append, Evolves-trans, Evolves-refl, arith, eq_iff, Bool-cases, any-false_mono,
}
use nod.Proto.Request.{is_pending}
use nod.Store.{RequestRow}
use nod.Requests.History.{
  Journal, Edit, insert, touch, log, Edits, done, step, Keeps, Touches, same_id, same_text,
  same_pending_key,
}

Keeps-refl : (r : RequestRow) → Keeps r r
Keeps-refl r = record { id = refl; settled = inr (refl, refl, refl) }

Keeps-trans : (a b c : RequestRow) → Keeps a b → Keeps b c → Keeps a c
Keeps-trans a b c h k = record { id = k.id ∙ h.id; settled = chain h.settled k.settled }
  where
    chain :
        ((is_pending a.status ≡ true)
          ⊎ ((b.status ≡ a.status) × (b.decision ≡ a.decision) × (b.resolved_at ≡ a.resolved_at)))
        → ((is_pending b.status ≡ true)
            ⊎ ((c.status ≡ b.status) × (c.decision ≡ b.decision) × (c.resolved_at ≡ b.resolved_at)))
        → (is_pending a.status ≡ true)
          ⊎ ((c.status ≡ a.status) × (c.decision ≡ a.decision) × (c.resolved_at ≡ a.resolved_at))
    chain (inl p) q = inl p
    chain (inr p) (inl q) = inl (ap is_pending (sym p.0) ∙ q)
    chain (inr p) (inr q) = inr (q.0 ∙ p.0, q.1 ∙ p.1, q.2 ∙ p.2)

bump-Keeps :
    (id : String) (r : RequestRow)
    → Keeps r (if r.id == id then record r { revision = r.revision + 1 } else r)
bump-Keeps id r = elim (Bool-cases (r.id == id)) [
  | inl e ↦ rw e (record { id = refl; settled = inr (refl, refl, refl) })
  | inr e ↦ rw e (Keeps-refl r)
]

Edit-Keeps : {i j : Journal} → Edit i j → Evolves Keeps i.requests j.requests
Edit-Keeps (insert j r new free) = Evolves-append Keeps Keeps-refl j.requests (r ∷ [])
Edit-Keeps (touch j p f t) = Evolves-update Keeps p f j.requests (λ r. (t r).keeps)
Edit-Keeps (log j id r e found same next) =
    Evolves-update Keeps (λ r. r.id == id) _ j.requests (bump-Keeps id)

-- Requests stand where they stood, and settled ones keep their outcome.
pub Edits-Keeps : {i j : Journal} → Edits i j → Evolves Keeps i.requests j.requests
Edits-Keeps {i} done = Evolves-refl Keeps Keeps-refl i.requests
Edits-Keeps (step s d) = Evolves-trans Keeps Keeps-trans (Edit-Keeps s) (Edits-Keeps d)

-- No two requests have one id, and no two wait under one dedupe key of one channel.
abbrev pub IsUnique : Journal → Type 0
IsUnique j = Distinct same_id j.requests × Distinct same_pending_key j.requests

same_id-sym : (a b : RequestRow) → same_id a b ≡ true → same_id b a ≡ true
same_id-sym a b h = ground (arith, eq_iff a.id b.id, eq_iff b.id a.id)

same_text-sym : (a b : Option String) → same_text a b ≡ true → same_text b a ≡ true
same_text-sym none b h = cc
same_text-sym (some a) none h = cc
same_text-sym (some a) (some b) h = ground (arith, eq_iff a b, eq_iff b a)

same_pending_key-sym :
    (a b : RequestRow) → same_pending_key a b ≡ true → same_pending_key b a ≡ true
same_pending_key-sym a b h = ground (
  arith,
  eq_iff a.channel_id b.channel_id,
  eq_iff b.channel_id a.channel_id,
  same_text-sym a.dedupe_key b.dedupe_key,
)

pending_before :
    {a b : RequestRow} → Keeps a b → is_pending b.status ≡ true → is_pending a.status ≡ true
pending_before k h = elim k.settled [ inl p ↦ p | inr p ↦ ap is_pending (sym p.0) ∙ h ]

touched_key :
    {a a' b b' : RequestRow}
    → Touches a a'
    → Touches b b'
    → same_pending_key a' b' ≡ true
    → same_pending_key a b ≡ true
touched_key {a} {a'} {b} {b'} t u h =
    let p = pending_before t.keeps (ground arith) in
    let q = pending_before u.keeps (ground arith) in
    let c : a'.channel_id == b'.channel_id ≡ true = ground arith in
    let k : same_text a'.dedupe_key b'.dedupe_key ≡ true = ground arith in
    rw (p, q, ← t.channel_id, ← u.channel_id, ← t.dedupe_key, ← u.dedupe_key, c, k)

touched_id :
    {a a' b b' : RequestRow}
    → Touches a a'
    → Touches b b'
    → same_id a' b' ≡ true
    → same_id a b ≡ true
touched_id t u h = rw (← t.keeps.id, ← u.keeps.id) h

bump-Touches-key :
    (id : String) (a b : RequestRow)
    → same_pending_key
        (if a.id == id then record a { revision = a.revision + 1 } else a)
        (if b.id == id then record b { revision = b.revision + 1 } else b)
      ≡ true
    → same_pending_key a b ≡ true
bump-Touches-key id a b h = ground arith

Edit-IsUnique : {i j : Journal} → Edit i j → IsUnique i → IsUnique j
Edit-IsUnique (insert j r new free) (d, k) = (
  Distinct-append same_id j.requests r same_id-sym d (
      any-false_mono (same_id r) (λ x. same_id r x || same_pending_key r x) j.requests
        (λ x h. ground arith) free),
  Distinct-append same_pending_key j.requests r same_pending_key-sym k (
      any-false_mono (same_pending_key r) (λ x. same_id r x || same_pending_key r x) j.requests
        (λ x h. ground arith) free),
)
Edit-IsUnique (touch j p f t) (d, k) = (
  Distinct-mono same_id p f j.requests (λ a b. touched_id (t a) (t b)) d,
  Distinct-mono same_pending_key p f j.requests (λ a b. touched_key (t a) (t b)) k,
)
Edit-IsUnique (log j id r e found same next) (d, k) = (
  Distinct-mono same_id (λ x. x.id == id) _ j.requests (λ a b h. ground arith) d,
  Distinct-mono same_pending_key (λ x. x.id == id) _ j.requests (bump-Touches-key id) k,
)

pub Edits-IsUnique : {i j : Journal} → Edits i j → IsUnique i → IsUnique j
Edits-IsUnique done u = u
Edits-IsUnique (step s d) u = Edits-IsUnique d (Edit-IsUnique s u)

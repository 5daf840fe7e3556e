-- ===== src/Delivery/Publish/Once.antt =====
-- The publisher's queue of db/lifecycle.rs over whole histories.
use nod.Base.{
  ℕ, ◌≡◌, refl, ◌∙◌, ◌⊎◌, inl, inr, String, true, Option, none, some, List, [], ◌∷◌, ◌++◌, eqb,
  find, is_none, Bool-cases, Evolves, Evolves-refl, Evolves-update, Evolves-append, Evolves-trans,
  arith, if◌then◌else◌,
}
use nod.Store.{EventRow}
use nod.Delivery.Publish.{
  PublishClaim, claim_due, claim_event, published, retry, is_due, leased, holds_claim, marked,
  delayed, retry_delay,
}

-- The three statements of the publisher, and a new entry of the journal.
pub data PublishCall : Type 0 where
  claims : ℕ → (token : String) → PublishCall
  publishes : ℕ → PublishClaim → (stream_seq : ℕ) → PublishCall
  retries : ℕ → PublishClaim → PublishCall
  adds : EventRow → PublishCall

unfoldable pub call : PublishCall → List EventRow → List EventRow
unfolding claim_due published retry
call (claims now token) rows = (claim_due now token rows).1
call (publishes now claim stream_seq) rows = (published now claim stream_seq rows).1
call (retries now claim) rows = (retry now claim rows).1
call (adds e) rows = rows ++ e ∷ []

unfoldable pub run : List PublishCall → List EventRow → List EventRow
unfolding call
run [] rows = rows
run (c ∷ cs) rows = run cs (call c rows)

-- An entry without the columns of its delivery: its place and contents are the others.
abbrev pub fact : EventRow → EventRow
fact e = record e {
  published_at = none;
  stream_seq = none;
  lease_token = none;
  lease_until = none;
  next_attempt_at = 0;
  attempts = 0;
  last_error = none;
}

-- The entry is the same fact, and once it is published it stays so under its place in the stream.
pub record Persists (before after : EventRow) : Type 0 where
  pub same_fact : fact after ≡ fact before
  pub outcome :
      (is_none before.published_at ≡ true)
      ⊎ ((after.published_at ≡ before.published_at) × (after.stream_seq ≡ before.stream_seq))

Persists-refl : (e : EventRow) → Persists e e
Persists-refl e = record { same_fact = refl; outcome = inr (refl, refl) }

Persists-trans : (a b c : EventRow) → Persists a b → Persists b c → Persists a c
Persists-trans a b c h k = record {
  same_fact = k.same_fact ∙ h.same_fact;
  outcome = chain h.outcome k.outcome;
}
  where
    chain :
        ((is_none a.published_at ≡ true)
          ⊎ ((b.published_at ≡ a.published_at) × (b.stream_seq ≡ a.stream_seq)))
        → ((is_none b.published_at ≡ true)
            ⊎ ((c.published_at ≡ b.published_at) × (c.stream_seq ≡ b.stream_seq)))
        → (is_none a.published_at ≡ true)
          ⊎ ((c.published_at ≡ a.published_at) × (c.stream_seq ≡ a.stream_seq))
    chain (inl p) q = inl p
    chain (inr p) (inl q) = inl (rw (← p.0) q)
    chain (inr p) (inr q) = inr (q.0 ∙ p.0, q.1 ∙ p.1)

leased-Persists :
    (now : ℕ) (token : String) (seq : ℕ) (e : EventRow)
    → Persists e (if eqb e.seq seq then leased now token e else e)
leased-Persists now token seq e = elim (Bool-cases (eqb e.seq seq)) [
  | inl t ↦ rw t (record { same_fact = refl; outcome = inr (refl, refl) })
  | inr t ↦ rw t (Persists-refl e)
]

-- A report reaches an entry only while it is not published.
claimed-Persists :
    (now : ℕ) (claim : PublishClaim) (f : EventRow → EventRow)
    → ((e : EventRow) → fact (f e) ≡ fact e)
    → (e : EventRow) → Persists e (if holds_claim now claim e then f e else e)
claimed-Persists now claim f same e = elim (Bool-cases (holds_claim now claim e)) [
  | inl t ↦ rw t (record { same_fact = same e; outcome = inl (ground (arith, t)) })
  | inr t ↦ rw t (Persists-refl e)
]

claim-Persists :
    (now : ℕ) (token : String) (rows : List EventRow) (o : Option EventRow)
    → Evolves Persists rows (claim_event now token rows o).1
unfolding claim_event
claim-Persists now token rows none = Evolves-refl Persists Persists-refl rows
claim-Persists now token rows (some e) =
    Evolves-update Persists (λ r. eqb r.seq e.seq) (leased now token) rows
      (leased-Persists now token e.seq)

call-Persists : (c : PublishCall) (rows : List EventRow) → Evolves Persists rows (call c rows)
unfolding call
call-Persists (claims now token) rows = claim-Persists now token rows (find (is_due now) rows)
call-Persists (publishes now claim stream_seq) rows =
    Evolves-update Persists (holds_claim now claim) (marked now stream_seq) rows
      (claimed-Persists now claim (marked now stream_seq) (λ e. refl))
call-Persists (retries now claim) rows =
    let delay = delayed now (retry_delay claim.attempts) in
    Evolves-update Persists (holds_claim now claim) delay rows
      (claimed-Persists now claim delay (λ e. refl))
call-Persists (adds e) rows = Evolves-append Persists Persists-refl rows (e ∷ [])

-- However publishers claim, publish, fail and retry, with whatever claims and at whatever times, an
-- entry of the journal keeps its place and contents (every column but those of its delivery: the
-- mark of publication, the place in the stream, the lease, the attempts, the next time and the last
-- error), and once it is marked published it keeps that mark and its place in the stream: a late worker cannot publish it anew.
pub published_entries_are_final :
    (cs : List PublishCall) (rows : List EventRow) → Evolves Persists rows (run cs rows)
unfolding run
published_entries_are_final [] rows = Evolves-refl Persists Persists-refl rows
published_entries_are_final (c ∷ cs) rows =
    Evolves-trans Persists Persists-trans (call-Persists c rows)
      (published_entries_are_final cs (call c rows))

-- ===== src/Delivery/Push/Attempts.antt =====
-- The attempts of push_deliveries.rs: the column counts the sends, and no push is sent four times.
use nod.Base.{
  ℕ, ◌+◌, ◌*◌, ◌≤◌, ◌≡◌, refl, String, Bool, ◌&&◌, Option, List, [], ◌∷◌, ◌==◌, eqb, update,
  count_where, All, if◌then◌else◌, Result, ok, err, arith, Bool-cases, inl, inr, All-update-into,
  count_where-update, eq_iff,
}
use nod.Store.{PushRow}
use nod.Delivery.Push.{
  PushJob, recover_pushes, claim_pushes, due_pushes, begin_attempt, update_push, can_begin, owns,
  is_interrupted, is_chosen, recovered, claimed,
}

-- A call of one of the four statements, at a time, by a worker that may hold any job.
pub data PushCall : Type 0 where
  recovers : ℕ → PushCall
  claims : ℕ → (limit : ℕ) → PushCall
  begins : ℕ → PushJob → PushCall
  reports : ℕ → PushJob → String → Option String → PushCall

abbrev rows_after : List PushRow → Result (PushJob × List PushRow) → List PushRow
rows_after rows (ok (job, rows')) = rows'
rows_after rows (err e) = rows

abbrev rows_or : List PushRow → Result (List PushRow) → List PushRow
rows_or rows (ok rows') = rows'
rows_or rows (err e) = rows

unfoldable pub call : PushCall → List PushRow → List PushRow
unfolding recover_pushes claim_pushes begin_attempt update_push
call (recovers now) rows = recover_pushes now rows
call (claims now limit) rows = (claim_pushes now limit rows).1
call (begins now job) rows = rows_after rows (begin_attempt now job rows)
call (reports now job status error) rows = rows_or rows (update_push now job status error rows)

-- One row's key.
abbrev pub has_key : String → String → PushRow → Bool
has_key request_id device_id r = (r.request_id == request_id) && (r.device_id == device_id)

abbrev begun : Result (PushJob × List PushRow) → ℕ
begun (ok p) = 1
begun (err e) = 0

-- The sends that a call allows to one device for one request.
unfoldable pub sends_of : String → String → PushCall → List PushRow → ℕ
unfolding begin_attempt
sends_of request_id device_id (begins now job) rows =
    if (job.request_id == request_id) && (job.device_id == device_id)
    then begun (begin_attempt now job rows)
    else 0
sends_of request_id device_id _ rows = 0

unfoldable pub run : List PushCall → List PushRow → List PushRow
unfolding call
run [] rows = rows
run (c ∷ cs) rows = run cs (call c rows)

unfoldable pub sends : String → String → List PushCall → List PushRow → ℕ
unfolding call sends_of
sends request_id device_id [] rows = 0
sends request_id device_id (c ∷ cs) rows =
    sends_of request_id device_id c rows + sends request_id device_id cs (call c rows)

module _ (request_id device_id : String) where
  abbrev pub attempts_of : List PushRow → ℕ
  attempts_of [] = 0
  attempts_of (r ∷ rs) = (if has_key request_id device_id r then r.attempts else 0) + attempts_of rs

  attempts_of-update :
      (p : PushRow → Bool) (f : PushRow → PushRow) (rows : List PushRow)
      → ((r : PushRow) → (f r).attempts ≡ r.attempts)
      → ((r : PushRow) → has_key request_id device_id (f r) ≡ has_key request_id device_id r)
      → attempts_of (update p f rows) ≡ attempts_of rows
  attempts_of-update p f [] a k = refl
  attempts_of-update p f (r ∷ rs) a k = ground (arith, a r, k r, attempts_of-update p f rs a k)

  attempts_of-begin :
      (now : ℕ) (job : PushJob) (rows : List PushRow)
      → attempts_of (
          update
            (can_begin now job)
            (λ r. record r { attempts = r.attempts + 1; updated_at = now })
            rows)
        ≡ (if (job.request_id == request_id) && (job.device_id == device_id)
            then count_where (can_begin now job) rows
            else 0)
          + attempts_of rows
  attempts_of-begin now job [] = ground arith
  attempts_of-begin now job (r ∷ rs) = ground (
    arith,
    attempts_of-begin now job rs,
    eq_iff r.request_id job.request_id,
    eq_iff r.device_id job.device_id,
  )

  -- One call adds its sends to the attempts.
  attempts_of-call :
      (c : PushCall) (rows : List PushRow)
      → attempts_of (call c rows) ≡ sends_of request_id device_id c rows + attempts_of rows
  unfolding call sends_of
  attempts_of-call (recovers now) rows =
      omega (
        arith,
        attempts_of-update (is_interrupted now) (recovered now) rows (λ r. refl) (λ r. refl),
      )
  attempts_of-call (claims now limit) rows = omega (
    arith,
    attempts_of-update (is_chosen (due_pushes limit rows)) (claimed now) rows (λ r. refl)
        (λ r. refl),
  )
  attempts_of-call (begins now job) rows = ground (arith, attempts_of-begin now job rows)
  attempts_of-call (reports now job status error) rows = ground (
    arith,
    attempts_of-update (owns now job)
        (λ r. record r { status = status; updated_at = now; error = error }) rows (λ r. refl)
        (λ r. refl),
  )

  -- In every history of calls by any workers, the attempts stored for a push grow by exactly the
  -- number of sends that were allowed for it.
  pub sends_are_counted :
      (cs : List PushCall) (rows : List PushRow)
      → attempts_of (run cs rows) ≡ sends request_id device_id cs rows + attempts_of rows
  unfolding run sends
  sends_are_counted [] rows = omega arith
  sends_are_counted (c ∷ cs) rows =
      omega (arith, attempts_of-call c rows, sends_are_counted cs (call c rows))

  attempts_of-le :
      (rows : List PushRow)
      → All (λ r. r.attempts ≤ 3) rows
      → attempts_of rows ≤ 3 * count_where (has_key request_id device_id) rows
  attempts_of-le [] h = omega arith
  attempts_of-le (r ∷ rs) h = ground (arith, attempts_of-le rs h.1)

call_bounded :
    (c : PushCall) (rows : List PushRow)
    → All (λ r. r.attempts ≤ 3) rows
    → All (λ r. r.attempts ≤ 3) (call c rows)
unfolding call
call_bounded (recovers now) rows h =
    All-update-into _ _ (is_interrupted now) _ rows (λ r k. ground arith) h
call_bounded (claims now limit) rows h =
    All-update-into _ _ (is_chosen (due_pushes limit rows)) _ rows (λ r k. ground arith) h
call_bounded (begins now job) rows h =
    elim (Bool-cases (eqb (count_where (can_begin now job) rows) 1)) [
      | inl e ↦ rw e (All-update-into _ _ (can_begin now job) _ rows (λ r k. ground arith) h)
      | inr e ↦ rw e h
    ]
call_bounded (reports now job status error) rows h =
    elim (Bool-cases (eqb (count_where (owns now job) rows) 1)) [
      | inl e ↦ rw e (All-update-into _ _ (owns now job) _ rows (λ r k. ground arith) h)
      | inr e ↦ rw e h
    ]

module _ (request_id device_id : String) where
  call_key :
      (c : PushCall) (rows : List PushRow)
      → count_where (has_key request_id device_id) (call c rows)
        ≡ count_where (has_key request_id device_id) rows
  unfolding call
  call_key (recovers now) rows =
      count_where-update _ (is_interrupted now) (recovered now) rows (λ r. refl)
  call_key (claims now limit) rows =
      count_where-update _ (is_chosen (due_pushes limit rows)) (claimed now) rows (λ r. refl)
  call_key (begins now job) rows =
      elim (Bool-cases (eqb (count_where (can_begin now job) rows) 1)) [
        | inl e ↦ rw e (count_where-update _ (can_begin now job) _ rows (λ r. refl))
        | inr e ↦ rw e
      ]
  call_key (reports now job status error) rows =
      elim (Bool-cases (eqb (count_where (owns now job) rows) 1)) [
        | inl e ↦ rw e (count_where-update _ (owns now job) _ rows (λ r. refl))
        | inr e ↦ rw e
      ]

  run_bounded :
      (cs : List PushCall) (rows : List PushRow)
      → All (λ r. r.attempts ≤ 3) rows
      → attempts_of request_id device_id (run cs rows)
        ≤ 3 * count_where (has_key request_id device_id) rows
  unfolding run
  run_bounded [] rows h = attempts_of-le request_id device_id rows h
  run_bounded (c ∷ cs) rows h =
      omega (arith, run_bounded cs (call c rows) (call_bounded c rows h), call_key c rows)

  -- However workers claim, recover, begin and report, at whatever times and with whatever jobs, at
  -- most three sends are allowed to one device for one request, where the table holds at most one
  -- row for the pair (its primary key) and no row has more than three attempts at the start.
  pub sends_at_most_three :
      (cs : List PushCall) (rows : List PushRow)
      → All (λ r. r.attempts ≤ 3) rows
      → count_where (has_key request_id device_id) rows ≤ 1
      → sends request_id device_id cs rows ≤ 3
  sends_at_most_three cs rows h unique =
      omega (arith, run_bounded cs rows h, sends_are_counted request_id device_id cs rows)

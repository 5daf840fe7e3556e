-- ===== src/Delivery/Push/Fence.antt =====
-- The fence of push_deliveries.rs: when a row is claimed anew, the jobs of earlier claims are void.
use nod.Base.{
  ℕ, ◌≤◌, ◌<◌, ◌≡◌, refl, ◌⊎◌, inl, inr, String, Bool, true, false, ◌&&◌, Option, List, [], ◌∷◌,
  ◌==◌, eqb, any, count_where, All, err, internal, arith, Bool-cases, eq_iff, All-update-into,
  count_where-none, update_none,
}
use nod.Store.{PushRow, DeviceRow}
use nod.Delivery.Push.{
  PushJob, claim_pushes, due_pushes, begin_attempt, update_push, clear_invalid_push_token,
  can_begin, owns, is_interrupted, is_chosen, loses_token,
}
use nod.Delivery.Push.Attempts.{PushCall, recovers, claims, begins, reports, call, run}

abbrev pub is_row_of : PushJob → PushRow → Bool
is_row_of job r = (r.request_id == job.request_id) && (r.device_id == job.device_id)

-- The rows of the job's push are at its claim or at a later one; and: at a later one.
abbrev pub Reaches : PushJob → PushRow → Type 0
Reaches job r = (is_row_of job r ≡ false) ⊎ (job.claim_generation ≤ r.claim_generation)

abbrev pub Supersedes : PushJob → PushRow → Type 0
Supersedes job r = (is_row_of job r ≡ false) ⊎ (job.claim_generation < r.claim_generation)

module _ (job : PushJob) where
  call-Supersedes :
      (c : PushCall) (rows : List PushRow)
      → All (Supersedes job) rows
      → All (Supersedes job) (call c rows)
  unfolding call
  call-Supersedes (recovers now) rows h =
      All-update-into _ _ (is_interrupted now) _ rows (λ r k. ground arith) h
  call-Supersedes (claims now limit) rows h =
      All-update-into _ _ (is_chosen (due_pushes limit rows)) _ rows (λ r k. ground arith) h
  call-Supersedes (begins now other) rows h =
      elim (Bool-cases (eqb (count_where (can_begin now other) rows) 1)) [
        | inl e ↦ rw e (All-update-into _ _ (can_begin now other) _ rows (λ r k. ground arith) h)
        | inr e ↦ rw e h
      ]
  call-Supersedes (reports now other status error) rows h =
      elim (Bool-cases (eqb (count_where (owns now other) rows) 1)) [
        | inl e ↦ rw e (All-update-into _ _ (owns now other) _ rows (λ r k. ground arith) h)
        | inr e ↦ rw e h
      ]

  run-Supersedes :
      (cs : List PushCall) (rows : List PushRow)
      → All (Supersedes job) rows
      → All (Supersedes job) (run cs rows)
  unfolding run
  run-Supersedes [] rows h = h
  run-Supersedes (c ∷ cs) rows h = run-Supersedes cs (call c rows) (call-Supersedes c rows h)

  not-owns :
      (now : ℕ) (rows : List PushRow) → All (Supersedes job) rows → any (owns now job) rows ≡ false
  not-owns now [] h = refl
  not-owns now (r ∷ rs) h = ground (arith, not-owns now rs h.1)

  not-can_begin :
      (now : ℕ) (rows : List PushRow)
      → All (Supersedes job) rows
      → any (can_begin now job) rows ≡ false
  not-can_begin now [] h = refl
  not-can_begin now (r ∷ rs) h = ground (arith, not-can_begin now rs h.1)

  not-loses_token :
      (now : ℕ) (token : Option String) (rows : List PushRow) (devices : List DeviceRow)
      → any (owns now job) rows ≡ false
      → any (loses_token now job token rows) devices ≡ false
  not-loses_token now token rows [] h = refl
  not-loses_token now token rows (d ∷ ds) h = ground (arith, not-loses_token now token rows ds h)

  is_chosen_key :
      (r : PushRow) (chosen : List PushRow)
      → is_row_of job r ≡ true
      → any (is_row_of job) chosen ≡ true
      → is_chosen chosen r ≡ true
  is_chosen_key r [] k h = cc
  is_chosen_key r (c ∷ cs) k h = ground (
    arith,
    is_chosen_key r cs k,
    eq_iff r.request_id job.request_id,
    eq_iff r.device_id job.device_id,
    eq_iff c.request_id job.request_id,
    eq_iff c.device_id job.device_id,
    eq_iff r.request_id c.request_id,
    eq_iff r.device_id c.device_id,
  )

  claim-Supersedes :
      (now limit : ℕ) (rows : List PushRow)
      → All (Reaches job) rows
      → any (is_row_of job) (due_pushes limit rows) ≡ true
      → All (Supersedes job) (claim_pushes now limit rows).1
  unfolding claim_pushes
  claim-Supersedes now limit rows h chosen =
      All-update-into _ _ (is_chosen (due_pushes limit rows)) _ rows
        (λ r k. ground (arith, is_chosen_key r (due_pushes limit rows))) h

  -- Once a worker claims a push again, a job of an earlier claim of it is void for good: after any
  -- further calls, at any time, it cannot begin an attempt, cannot report a status, and clears no
  -- device's push token. (The rows of the push are at the job's claim or a later one, and the new
  -- claim takes up the push.)
  pub reclaimed_push_is_fenced :
      (now limit : ℕ) (rows : List PushRow)
      → All (Reaches job) rows
      → any (is_row_of job) (due_pushes limit rows) ≡ true
      → (cs : List PushCall) (later : ℕ) (status : String) (error token : Option String)
        (devices : List DeviceRow)
      → let rows' = run cs (claim_pushes now limit rows).1 in
        (begin_attempt later job rows' ≡ err (internal "database error"))
        × (update_push later job status error rows' ≡ err (internal "database error"))
        × (clear_invalid_push_token later job token rows' devices ≡ (false, devices))
  unfolding begin_attempt update_push clear_invalid_push_token
  reclaimed_push_is_fenced now limit rows h chosen cs later status error token devices =
      let rows' = run cs (claim_pushes now limit rows).1 in
      let void = run-Supersedes cs _ (claim-Supersedes now limit rows h chosen) in
      let idle = not-loses_token later token rows' devices (not-owns later rows' void) in
      (
        rw (count_where-none _ rows' (not-can_begin later rows' void)),
        rw (count_where-none _ rows' (not-owns later rows' void)),
        rw (count_where-none _ devices idle, update_none _ _ devices idle),
      )

-- ===== src/Delivery/Backoff.antt =====
-- The delays before a retry, in db/callback_deliveries.rs and db/lifecycle.rs.
use nod.Base.{ℕ, zero, suc, ◌≤◌, ◌^◌, min, Bool, true, false, arith}
use nod.Delivery.Callback
use nod.Delivery.Publish

pow_pos : (n : ℕ) → 1 ≤ 2 ^ n
pow_pos zero = omega arith
pow_pos (suc n) = omega (arith, pow_pos n)

pow_le : (m n : ℕ) → m ≤ n → 2 ^ m ≤ 2 ^ n
pow_le zero n h = pow_pos n
pow_le (suc m) zero h = absurd (omega (arith, h))
pow_le (suc m) (suc n) h = omega (arith, pow_le m n (omega (arith, h)))

-- A retry waits at least a second and at most an hour for a callback, five minutes for a journal
-- entry, and never less for more attempts.
pub retry_delays_are_bounded :
    (blocked : Bool) (m n : ℕ)
    → m ≤ n
    → (1 ≤ Callback.retry_delay blocked m)
      × (Callback.retry_delay blocked m ≤ Callback.retry_delay blocked n)
      × (Callback.retry_delay blocked n ≤ 3600)
      × (1 ≤ Publish.retry_delay m)
      × (Publish.retry_delay m ≤ Publish.retry_delay n)
      × (Publish.retry_delay n ≤ 300)
unfolding Callback.retry_delay Publish.retry_delay
retry_delays_are_bounded true m n h =
    let p = pow_pos (min m 8) in
    let q = pow_le (min m 8) (min n 8) (omega (arith, h)) in
    (omega arith, omega arith, omega arith, omega (arith, p), omega (arith, q), omega arith)
retry_delays_are_bounded false m n h =
    let p = pow_pos (min m 8) in
    let q = pow_le (min m 8) (min n 8) (omega (arith, h)) in
    let r = pow_pos (min m 12) in
    let s = pow_le (min m 12) (min n 12) (omega (arith, h)) in
    (
      omega (arith, r),
      omega (arith, s),
      omega arith,
      omega (arith, p),
      omega (arith, q),
      omega arith,
    )

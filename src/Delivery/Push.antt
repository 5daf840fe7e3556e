-- ===== src/Delivery/Push.antt =====
-- server/nod-server/crates/nod-server/src/db/push_deliveries.rs. `now` is in milliseconds.
pub mod Attempts
pub mod Fence
use nod.Base.{
  ℕ, ◌+◌, ◌/◌, String, Bool, true, false, not, ◌&&◌, ◌||◌, Option, none, some, List, map, ◌==◌, ltb,
  leb, eqb, any, select, update, take, sort_by, count_where, if◌then◌else◌, Result, ok, err,
  internal, refuse_if, ◌>>=◌, ◌>>◌,
}
use nod.Store.{PushRow, DeviceRow}

pub record PushJob : Type 0 where
  pub request_id : String
  pub device_id : String
  pub attempts : ℕ
  pub claim_generation : ℕ

abbrev pub max_attempts : ℕ
max_attempts = 3

abbrev pub lease_seconds : ℕ
lease_seconds = 90

-- `unixepoch()`.
abbrev pub epoch : ℕ → ℕ
epoch now = now / 1000

-- `lease_until IS NULL OR lease_until<=unixepoch()`, and `lease_until>unixepoch()`.
abbrev pub lease_over : ℕ → Option ℕ → Bool
lease_over now none = true
lease_over now (some t) = leb t (epoch now)

abbrev pub lease_live : ℕ → Option ℕ → Bool
lease_live now none = false
lease_live now (some t) = ltb (epoch now) t

abbrev pub is_interrupted : ℕ → PushRow → Bool
is_interrupted now r =
    (r.status == "sending") && lease_over now r.lease_until
    || (r.status == "queued") && leb 3 r.attempts

abbrev recovered : ℕ → PushRow → PushRow
recovered now r = record r {
  status = if leb 3 r.attempts then "failed" else "queued";
  lease_until = none;
  error = some "interrupted push lease expired";
  updated_at = now;
}

unfoldable pub recover_pushes : ℕ → List PushRow → List PushRow
recover_pushes now = update (is_interrupted now) (recovered now)

abbrev pub is_claimable : PushRow → Bool
is_claimable r = (r.status == "queued") && ltb r.attempts 3

-- The subquery: the oldest claimable rows, at most `limit`.
unfoldable pub due_pushes : ℕ → List PushRow → List PushRow
due_pushes limit rows =
    take limit (sort_by (λ a b. ltb a.updated_at b.updated_at) (select is_claimable rows))

abbrev pub same_key : PushRow → PushRow → Bool
same_key a b = (a.request_id == b.request_id) && (a.device_id == b.device_id)

abbrev pub is_chosen : List PushRow → PushRow → Bool
is_chosen chosen r = any (same_key r) chosen

abbrev claimed : ℕ → PushRow → PushRow
claimed now r = record r {
  status = "sending";
  claim_generation = r.claim_generation + 1;
  lease_until = some (epoch now + lease_seconds);
  updated_at = now;
}

abbrev pub job_of : PushRow → PushJob
job_of r = record {
  request_id = r.request_id;
  device_id = r.device_id;
  attempts = r.attempts;
  claim_generation = r.claim_generation;
}

unfoldable pub claim_pushes : ℕ → ℕ → List PushRow → List PushJob × List PushRow
unfolding due_pushes
claim_pushes now limit rows =
    let chosen = due_pushes limit rows in
    (
      map (λ r. job_of (claimed now r)) (select (is_chosen chosen) rows),
      update (is_chosen chosen) (claimed now) rows,
    )

-- The `WHERE` of every statement that a job makes: it still owns a live claim.
abbrev pub owns : ℕ → PushJob → PushRow → Bool
owns now job r =
    (r.request_id == job.request_id)
    && (r.device_id == job.device_id)
    && (r.status == "sending")
    && eqb r.claim_generation job.claim_generation
    && lease_live now r.lease_until
    && eqb r.attempts job.attempts

-- `rows_affected() != 1` is an error.
unfoldable pub update_push :
    ℕ → PushJob → String → Option String → List PushRow → Result (List PushRow)
update_push now job status error rows = do
  refuse_if (not (eqb (count_where (owns now job) rows) 1)) (internal "database error")
  ok (
      update (owns now job) (λ r. record r { status = status; updated_at = now; error = error })
        rows)

abbrev pub can_begin : ℕ → PushJob → PushRow → Bool
can_begin now job r = owns now job r && ltb r.attempts 3

unfoldable pub begin_attempt : ℕ → PushJob → List PushRow → Result (PushJob × List PushRow)
begin_attempt now job rows = do
  refuse_if (not (eqb (count_where (can_begin now job) rows) 1)) (internal "database error")
  ok (
    record job { attempts = job.attempts + 1 },
    update (can_begin now job) (λ r. record r { attempts = r.attempts + 1; updated_at = now }) rows,
  )

abbrev is_token : Option String → Option String → Bool
is_token (some a) (some b) = a == b
is_token _ _ = false

abbrev loses_token : ℕ → PushJob → Option String → List PushRow → DeviceRow → Bool
loses_token now job token rows d =
    (d.id == job.device_id) && is_token d.push_token token && any (owns now job) rows

unfoldable pub clear_invalid_push_token :
    ℕ → PushJob → Option String → List PushRow → List DeviceRow → Bool × List DeviceRow
clear_invalid_push_token now job token rows devices =
    let hit = loses_token now job token rows in
    (eqb (count_where hit devices) 1, update hit (λ d. record d { push_token = none }) devices)

-- ===== src/Requests/Maintain.antt =====
-- server/nod-server/crates/nod-server/src/db/requests/maintenance.rs: cancelling, expiring, pruning.
pub mod Expiry
use nod.Base.{
  ℕ, ◌+◌, ◌*◌, max, String, Bool, true, false, not, ◌&&◌, Option, none, some, List, [], ◌∷◌, map,
  ◌==◌, ltb, any, select, update, length, if◌then◌else◌, Result, ok, err, conflict, internal,
  refuse_if, ◌>>=◌, ◌>>◌,
}
use nod.Proto.Request.{cancelled, expired, is_pending}
use nod.Env.{Env}
use nod.Store.{Db, RequestRow}
use nod.Model.{DecisionRequest}
use nod.Lifecycle.{append_lifecycle_on}
use nod.Requests.Read.{get_request_on}
use nod.Requests.Decide.{is_due, is_open_row}

unfoldable pub cancel_request : Env → Db → ℕ → String → String → Result (DecisionRequest × Db)
cancel_request env db now event_id request_id = do
  request ← get_request_on env db request_id
  refuse_if (not (is_pending request.status)) (conflict "request is no longer pending")
  refuse_if (not (any (is_open_row request_id) db.requests))
      (conflict "request is no longer pending")
  let written = record db {
    requests =
        update (is_open_row request_id) (λ r. record r { status = cancelled; updated_at = now })
          db.requests;
  }
  after ← get_request_on env written request_id
  done ← append_lifecycle_on written now event_id after "nod.request.cancelled" none
  ok (after, done)

-- `WHERE status = 'pending' AND expires_at IS NOT NULL AND expires_at <= ?`.
abbrev pub must_expire : ℕ → RequestRow → Bool
must_expire now r = is_pending r.status && is_due now r.expires_at

abbrev pub mark_expired : ℕ → List RequestRow → List RequestRow
mark_expired now = update (must_expire now) (λ r. record r { status = expired; updated_at = now })

-- The loop over the returned ids. `event_ids` gives an id to each round.
unfoldable pub announce :
    Env → ℕ → (ℕ → String) → List String → Db → Result (List DecisionRequest × Db)
announce env now event_ids [] db = ok ([], db)
announce env now event_ids (id ∷ ids) db = do
  request ← get_request_on env db id
  next ← append_lifecycle_on db now (event_ids (length ids)) request "nod.request.expired" none
  (requests, done) ← announce env now event_ids ids next
  ok (request ∷ requests, done)

unfoldable pub expire_due_requests :
    Env → Db → ℕ → (ℕ → String) → Result (List DecisionRequest × Db)
expire_due_requests env db now event_ids =
    announce env now event_ids (map (λ r. r.id) (select (must_expire now) db.requests))
      (record db { requests = mark_expired now db.requests })

abbrev last_change : RequestRow → ℕ
last_change r = elim r.resolved_at [ none ↦ r.updated_at | some t ↦ t ]

-- `status != 'pending' AND COALESCE(resolved_at, updated_at) < cutoff`, where the cutoff lies
-- `retention_days` (at least one) before `now`.
abbrev pub is_stale : ℕ → ℕ → RequestRow → Bool
is_stale now retention_days r =
    not (is_pending r.status) && ltb (last_change r + max retention_days 1 * 86400000) now

-- `ON DELETE CASCADE`: whether a row belongs to a request that is deleted.
abbrev pub is_cascaded : ℕ → ℕ → List RequestRow → String → Bool
is_cascaded now retention_days requests id =
    any (λ r. (r.id == id) && is_stale now retention_days r) requests

unfoldable pub prune_retention : Db → ℕ → ℕ → Db × ℕ
prune_retention db now retention_days =
    let stays = λ (id : String). not (is_cascaded now retention_days db.requests id) in
    (
      record db {
        requests = select (λ r. not (is_stale now retention_days r)) db.requests;
        recipients = select (λ r. stays r.request_id) db.recipients;
        options = select (λ r. stays r.request_id) db.options;
        user_decisions = select (λ r. stays r.request_id) db.user_decisions;
        idempotency = select (λ r. stays r.request_id) db.idempotency;
        origins = select (λ r. stays r.request_id) db.origins;
        pushes = select (λ r. stays r.request_id) db.pushes;
      },
      length (select (is_stale now retention_days) db.requests),
    )

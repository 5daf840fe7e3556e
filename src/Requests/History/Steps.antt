-- ===== src/Requests/History/Steps.antt =====
-- The handlers of db/requests refine the abstract machine.
use nod.Base.{
  length, guard_ok, conflict, any-append, ℕ, ◌≡◌, refl, inl, inr, String, Bool, true, not, ◌&&◌,
  Option, none, some, List, [], ◌∷◌, ◌++◌, ◌==◌, any, update, count_where, ltb, leb, if◌then◌else◌,
  ok, bind_ok, arith, Bool-cases,
}
use nod.Proto.Request.{expired, cancelled, is_pending, is_shared, resolved, Decision}
use nod.Env.{Env}
use nod.Store.{Db, RequestRow, NonceRow}
use nod.Model.{DecisionRequest}
use nod.Lifecycle.{append_lifecycle_on}
use nod.Lifecycle.Inversion.{append_lifecycle_on-Logged}
use nod.Requests.Read.{get_request_on}
use nod.Requests.Signature.Inversion.{verified-nonces}
use nod.Requests.Decide.{
  DecisionSubmission, record_decision, write_decision, record_shared_decision, record_user_decision,
  settle, is_open_row,
}
use nod.Requests.Decide.Inversion.{stages_of}
use nod.Requests.Maintain.{cancel_request, expire_due_requests, announce, must_expire}
use nod.Requests.History.{journal_of, touch, log, Edits, done, step, Edits-trans, Touches}

-- A handler's effect: steps of the machine, and no signature nonce is forgotten.
pub record Effect (db after : Db) : Type 0 where
  pub edits : Edits (journal_of db) (journal_of after)
  pub nonces : (p : NonceRow → Bool) → any p db.nonces ≡ true → any p after.nonces ≡ true

pub Effect-refl : (db : Db) → Effect db db
Effect-refl db = record { edits = done; nonces = λ p h. h }

pub Effect-trans : {a b c : Db} → Effect a b → Effect b c → Effect a c
Effect-trans h k = record {
  edits = Edits-trans h.edits k.edits;
  nonces = λ p e. k.nonces p (h.nonces p e);
}

-- A journal entry is a step.
pub append-Effect :
    (db : Db) (now : ℕ) (event_id : String) (request : DecisionRequest) (kind : String)
    (decision : Option Decision) {after : Db}
    → append_lifecycle_on db now event_id request kind decision ≡ ok after
    → Effect db after
append-Effect db now event_id request kind decision h =
    let l = append_lifecycle_on-Logged db now event_id request kind decision h in
    rw l.shape (record {
      edits = step (log (journal_of db) request.id l.row _ l.found refl refl) done;
      nonces = λ p e. e;
    })

touch-Effect :
    (db : Db) (p : RequestRow → Bool) (f : RequestRow → RequestRow)
    → ((r : RequestRow) → Touches r (if p r then f r else r))
    → Effect db (record db { requests = update p f db.requests })
touch-Effect db p f t = record {
  edits = step (touch (journal_of db) p f t) done;
  nonces = λ p e. e;
}

-- The updates of the handlers: an open request changes its outcome, any other only its time.
open_row-Touches :
    (f : RequestRow → RequestRow)
    → ((r : RequestRow) → (f r).id ≡ r.id)
    → ((r : RequestRow) → (f r).channel_id ≡ r.channel_id)
    → ((r : RequestRow) → (f r).dedupe_key ≡ r.dedupe_key)
    → ((r : RequestRow) → (f r).revision ≡ r.revision)
    → (p : RequestRow → Bool) → ((r : RequestRow) → p r ≡ true → is_pending r.status ≡ true)
    → (r : RequestRow) → Touches r (if p r then f r else r)
open_row-Touches f a b c d p only r = elim (Bool-cases (p r)) [
  | inl e ↦ rw e (record {
    keeps = record { id = a r; settled = inl (only r e) };
    channel_id = b r;
    dedupe_key = c r;
    revision = d r;
  })
  | inr e ↦ rw e (record {
    keeps = record { id = refl; settled = inr (refl, refl, refl) };
    channel_id = refl;
    dedupe_key = refl;
    revision = refl;
  })
]

timed-Touches :
    (id : String) (t : ℕ) (r : RequestRow)
    → Touches r (if r.id == id then record r { updated_at = t } else r)
timed-Touches id t r = elim (Bool-cases (r.id == id)) [
  | inl e ↦ rw e (record {
    keeps = record { id = refl; settled = inr (refl, refl, refl) };
    channel_id = refl;
    dedupe_key = refl;
    revision = refl;
  })
  | inr e ↦ rw e (record {
    keeps = record { id = refl; settled = inr (refl, refl, refl) };
    channel_id = refl;
    dedupe_key = refl;
    revision = refl;
  })
]

settle-Effect :
    (db : Db) (id : String) (t : ℕ) → Effect db (record db { requests = settle db id t })
unfolding settle
settle-Effect db id t =
    elim (Bool-cases (
      ltb 0 (count_where (λ r. r.request_id == id) db.recipients)
      && leb (count_where (λ r. r.request_id == id) db.recipients)
          (count_where (λ d. d.request_id == id) db.user_decisions))) [
            | inl e ↦ rw e (
                touch-Effect db (is_open_row id) _ (
                  open_row-Touches
                    (λ r. record r { status = resolved; resolved_at = some t; updated_at = t })
                    (λ r. refl) (λ r. refl) (λ r. refl) (λ r. refl) (is_open_row id)
                    (λ r h. ground arith)))
            | inr e ↦ rw e (touch-Effect db (λ r. r.id == id) _ (timed-Touches id t))
          ]

shared-Effect :
    (db : Db) (id : String) (d : Decision) {after : Db}
    → record_shared_decision db id d ≡ ok after
    → Effect db after
unfolding record_shared_decision
shared-Effect db id d {after} h =
    guard_ok (not (any (is_open_row id) db.requests)) (conflict "request was already handled") _ h
      λ there h1.
        let change = λ (r : RequestRow). record r {
          status = resolved;
          decision = some d;
          resolved_at = some d.resolved_at;
          updated_at = d.resolved_at;
        } in
        let same : record db { requests = update (is_open_row id) change db.requests } ≡ after =
          cc h1 in
        rw (← same) (
          touch-Effect db (is_open_row id) change (
            open_row-Touches change (λ r. refl) (λ r. refl) (λ r. refl) (λ r. refl) (is_open_row id)
              (λ r h. ground arith)))

user-Effect :
    (db : Db) (id : String) (actor : Option String) (d : Decision) {after : Db}
    → record_user_decision db id actor d ≡ ok after
    → Effect db after
unfolding record_user_decision
user-Effect db id none d h = absurd (cc h)
user-Effect db id (some user_id) d {after} h =
    guard_ok (any (λ r. (r.request_id == id) && (r.user_id == user_id)) db.user_decisions)
      (conflict "request was already handled by this user") _ h
      λ first h1.
        let added = record db {
          user_decisions =
              db.user_decisions
              ++ record {
                request_id = id;
                user_id = user_id;
                decision = d;
                resolved_at = d.resolved_at;
              }
                ∷ [];
        } in
        let same : record added { requests = settle added id d.resolved_at } ≡ after = cc h1 in
        let e = settle-Effect added id d.resolved_at in
        rw (← same) (record { edits = e.edits; nonces = e.nonces })

pub write-Effect :
    (db : Db) (s : DecisionSubmission) (request : DecisionRequest) (d : Decision) {after : Db}
    → write_decision db s request d ≡ ok after
    → Effect db after
unfolding write_decision
write-Effect db s request d h = elim (Bool-cases (is_shared request.decision_resolution)) [
  | inl e ↦ shared-Effect db s.request_id d (rw e at h)
  | inr e ↦ user-Effect db s.request_id s.actor_user_id d (rw e at h)
]

-- A decision is a run of the machine.
pub record_decision-Effect :
    (env : Env) (db : Db) (now resolved_at : ℕ) (event_id : String) (s : DecisionSubmission)
    {after : DecisionRequest} {last : Db}
    → record_decision env db now resolved_at event_id s ≡ ok (after, last)
    → Effect db last
record_decision-Effect env db now resolved_at event_id s {after} h =
    let t = stages_of env db now resolved_at event_id s h in
    let n = verified-nonces env db resolved_at t.request t.option s.actor_device _ _ _ t.verified in
    let noted : Effect db t.noted =
      rw n.1
        (record { edits = done; nonces = λ p e. ground (arith, any-append p db.nonces n.0) }) in
    Effect-trans noted (
      Effect-trans (write-Effect t.noted s t.request _ t.wrote)
        (append-Effect t.written resolved_at event_id after _ _ t.logged))

pub cancel_request-Effect :
    (env : Env) (db : Db) (now : ℕ) (event_id request_id : String) {after : DecisionRequest}
    {last : Db}
    → cancel_request env db now event_id request_id ≡ ok (after, last)
    → Effect db last
unfolding cancel_request
cancel_request-Effect env db now event_id request_id {after} {last} h =
    bind_ok (get_request_on env db request_id) _ h λ request found h1.
      guard_ok (not (is_pending request.status)) (conflict "request is no longer pending") _ h1
        λ waits h2.
          guard_ok (not (any (is_open_row request_id) db.requests))
            (conflict "request is no longer pending") _ h2
            λ there h3.
              let cancel = λ (r : RequestRow). record r { status = cancelled; updated_at = now } in
              let marked = record db {
                requests = update (is_open_row request_id) cancel db.requests;
              } in
              bind_ok (get_request_on env marked request_id) _ h3 λ read reread h4.
                bind_ok (append_lifecycle_on marked now event_id read "nod.request.cancelled" none)
                  _ h4
                  λ written logged h5.
                    let same : written ≡ last = cc h5 in
                    rw (← same) (
                      Effect-trans
                        (touch-Effect db (is_open_row request_id) cancel (
                          open_row-Touches cancel (λ r. refl) (λ r. refl) (λ r. refl) (λ r. refl)
                            (is_open_row request_id) (λ r h. ground arith)))
                        (append-Effect marked now event_id read _ _ logged))

announce-Effect :
    (env : Env) (now : ℕ) (event_ids : ℕ → String) (ids : List String) (db : Db)
    {p : List DecisionRequest × Db}
    → announce env now event_ids ids db ≡ ok p
    → Effect db p.1
unfolding announce
announce-Effect env now event_ids [] db {p} h =
    let same : db ≡ p.1 = cc h in rw (← same) (Effect-refl db)
announce-Effect env now event_ids (id ∷ ids) db {p} h =
    bind_ok (get_request_on env db id) _ h λ request found h1.
      bind_ok
        (append_lifecycle_on db now (event_ids (length ids)) request "nod.request.expired" none) _
        h1
        λ next logged h2. bind_ok (announce env now event_ids ids next) _ h2 λ rest announced h3.
          let same : rest.1 ≡ p.1 = cc h3 in
          rw (← same) (
            Effect-trans (append-Effect db now _ request _ _ logged)
              (announce-Effect env now event_ids ids next announced))

pub expire_due_requests-Effect :
    (env : Env) (db : Db) (now : ℕ) (event_ids : ℕ → String) {p : List DecisionRequest × Db}
    → expire_due_requests env db now event_ids ≡ ok p
    → Effect db p.1
unfolding expire_due_requests
expire_due_requests-Effect env db now event_ids h =
    Effect-trans
      (touch-Effect db (must_expire now) (λ r. record r { status = expired; updated_at = now })
        (open_row-Touches (λ r. record r { status = expired; updated_at = now }) (λ r. refl)
          (λ r. refl) (λ r. refl) (λ r. refl) (must_expire now) (λ r h. ground arith)))
      (announce-Effect env now event_ids _ _ h)

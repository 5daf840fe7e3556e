-- ===== src/Requests/History/Calls.antt =====
-- Histories of the handlers of server/nod-server/crates/nod-server/src/db/requests: any calls, in any
-- order, at any times. A call that fails is rolled back.
use nod.Base.{ℕ, ◌≡◌, refl, String, List, [], ◌∷◌, Result, ok, err, Evolves}
use nod.Proto.Request.{CreateDecisionRequest}
use nod.Env.{Env}
use nod.Store.{Db}
use nod.Requests.Content.{CreateRequestMetadata}
use nod.Requests.Insert.{Fresh}
use nod.Requests.Create.{create_request}
use nod.Requests.Decide.{DecisionSubmission, record_decision}
use nod.Requests.Maintain.{cancel_request, expire_due_requests}
use nod.Requests.History.{journal_of, Keeps}
use nod.Requests.History.Laws.{Edits-Keeps, IsUnique, Edits-IsUnique}
use nod.Requests.History.Numbering.{IsNumbered, Edits-IsNumbered}
use nod.Requests.History.Steps.{
  Effect, Effect-refl, Effect-trans, record_decision-Effect, cancel_request-Effect,
  expire_due_requests-Effect,
}
use nod.Requests.History.Creation.{create_request-Effect}

pub data RequestCall : Type 0 where
  creates : ℕ → Fresh → CreateDecisionRequest → CreateRequestMetadata → RequestCall
  decides : (now resolved_at : ℕ) → (event_id : String) → DecisionSubmission → RequestCall
  cancels : ℕ → (event_id request_id : String) → RequestCall
  expires : ℕ → (event_ids : ℕ → String) → RequestCall

abbrev pub committed {ℓ} : {A : Type ℓ} → Db → Result (A × Db) → Db
committed db (ok p) = p.1
committed db (err e) = db

unfoldable pub call : Env → RequestCall → Db → Db
call env (creates now fresh req meta) db = committed db (create_request env db now fresh req meta)
call env (decides now resolved_at event_id s) db =
    committed db (record_decision env db now resolved_at event_id s)
call env (cancels now event_id request_id) db =
    committed db (cancel_request env db now event_id request_id)
call env (expires now event_ids) db = committed db (expire_due_requests env db now event_ids)

unfoldable pub run : Env → List RequestCall → Db → Db
unfolding call
run env [] db = db
run env (c ∷ cs) db = run env cs (call env c db)

committed-Effect {ℓ} :
    {A : Type ℓ} (db : Db) (r : Result (A × Db))
    → ((p : A × Db) → r ≡ ok p → Effect db p.1)
    → Effect db (committed db r)
committed-Effect db (ok p) k = k p refl
committed-Effect db (err e) k = Effect-refl db

call-Effect : (env : Env) (c : RequestCall) (db : Db) → Effect db (call env c db)
unfolding call
call-Effect env (creates now fresh req meta) db =
    committed-Effect db _ (λ p h. create_request-Effect env db now fresh req meta h)
call-Effect env (decides now resolved_at event_id s) db =
    committed-Effect db _ (λ p h. record_decision-Effect env db now resolved_at event_id s h)
call-Effect env (cancels now event_id request_id) db =
    committed-Effect db _ (λ p h. cancel_request-Effect env db now event_id request_id h)
call-Effect env (expires now event_ids) db =
    committed-Effect db _ (λ p h. expire_due_requests-Effect env db now event_ids h)

pub run-Effect : (env : Env) (cs : List RequestCall) (db : Db) → Effect db (run env cs db)
unfolding run
run-Effect env [] db = Effect-refl db
run-Effect env (c ∷ cs) db = Effect-trans (call-Effect env c db) (run-Effect env cs (call env c db))

-- Whatever requests are created, decided, cancelled and expired, in any order and at any times: a
-- request stays in the table under its id, and once it is resolved, cancelled or expired it keeps
-- its status, its decision and its time of resolution. So of two rival outcomes the first stands.
pub settled_requests_are_final :
    (env : Env) (cs : List RequestCall) (db : Db)
    → Evolves Keeps db.requests (run env cs db).requests
settled_requests_are_final env cs db = Edits-Keeps (run-Effect env cs db).edits

-- In every history of creations, decisions, cancellations and expiries, the ids of the requests stay
-- distinct, and no two pending requests of a channel share a dedupe key, where that holds at first.
pub one_pending_request_per_key :
    (env : Env) (cs : List RequestCall) (db : Db)
    → IsUnique (journal_of db)
    → IsUnique (journal_of (run env cs db))
one_pending_request_per_key env cs db = Edits-IsUnique (run-Effect env cs db).edits

-- In every history of creations, decisions, cancellations and expiries, the journal stays complete:
-- the entries of a request are numbered 1, 2, 3 … up to the request's revision, in this order and
-- without a gap, and every entry belongs to a request, where that holds at first.
pub journal_has_no_gaps :
    (env : Env) (cs : List RequestCall) (db : Db)
    → IsNumbered (journal_of db)
    → IsNumbered (journal_of (run env cs db))
journal_has_no_gaps env cs db = Edits-IsNumbered (run-Effect env cs db).edits

-- ===== src/Lifecycle/Inversion.antt =====
-- What an appended journal entry did to the database.
use nod.Base.{
  ℕ, ◌+◌, ◌≡◌, String, Bool, false, ◌&&◌, ◌||◌, Option, List, [], ◌∷◌, ◌++◌, ◌==◌, eqb, any, find,
  ok, internal, ok_or, ok_or-eq-ok, bind_ok, Bool-cases, inl, inr,
}
use nod.Proto.Request.{Decision}
use nod.Store.{Db, RequestRow, CallbackRow, insert_row}
use nod.Model.{DecisionRequest}
use nod.Lifecycle.{append_lifecycle_on, owed_callback, bump_revision, event_row}

-- An insertion that succeeds met no clash, and appended the row.
pub insert_row-eq-ok {ℓ} :
    {A : Type ℓ} (clash : A → Bool) (row : A) (rows : List A) {rows' : List A}
    → insert_row clash row rows ≡ ok rows'
    → (any clash rows ≡ false) × (rows' ≡ rows ++ row ∷ [])
insert_row-eq-ok clash row rows h = elim (Bool-cases (any clash rows)) [
  | inl e ↦ absurd (cc (rw e at h))
  | inr e ↦ (e, cc (rw e at h))
]

pub record Logged (db : Db) (now : ℕ) (event_id : String) (request : DecisionRequest)
    (kind : String) (decision : Option Decision) (done : Db) : Type 0 where
  pub row : RequestRow
  pub callbacks : List CallbackRow
  pub found : find (λ r. r.id == request.id) db.requests ≡ Option.some row
  pub fresh :
      any
        (λ e.
          (e.event_id == event_id)
          || (e.request_id == request.id) && eqb e.revision (row.revision + 1))
        db.events
      ≡ false
  pub owed :
      owed_callback now event_id request decision
        (row.revision + 1)
        request.callback_url
        db.callbacks
      ≡ ok callbacks
  pub shape : done ≡ record db {
    requests = bump_revision request.id db.requests;
    events =
        db.events
        ++ event_row db now event_id request kind decision
            (row.revision + 1)
            row.created_by_issuer_token_id
          ∷ [];
    callbacks = callbacks;
  }

pub append_lifecycle_on-Logged :
    (db : Db) (now : ℕ) (event_id : String) (request : DecisionRequest) (kind : String)
    (decision : Option Decision) {done : Db}
    → append_lifecycle_on db now event_id request kind decision ≡ ok done
    → Logged db now event_id request kind decision done
unfolding append_lifecycle_on
append_lifecycle_on-Logged db now event_id request kind decision {done} h =
    bind_ok (ok_or (find (λ r. r.id == request.id) db.requests) (internal "database error")) _ h
      λ row found h1. bind_ok _ _ h1 λ events inserted h2. bind_ok _ _ h2 λ callbacks owed h3.
        let p =
          insert_row-eq-ok
            (λ e.
              (e.event_id == event_id)
              || (e.request_id == request.id) && eqb e.revision (row.revision + 1))
            (event_row db now event_id request kind decision (row.revision + 1)
              row.created_by_issuer_token_id)
            db.events inserted in
        record {
          row = row;
          callbacks = callbacks;
          found =
              ok_or-eq-ok (find (λ r. r.id == request.id) db.requests) (internal "database error")
                found;
          fresh = p.0;
          owed = owed;
          shape = rw (← p.1) (cc h3);
        }

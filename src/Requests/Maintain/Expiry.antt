-- ===== src/Requests/Maintain/Expiry.antt =====
-- The expiry of due requests in db/requests/maintenance.rs.
use nod.Base.{
  any-update-le, ℕ, ◌+◌, ◌≡◌, refl, ap, sym, ◌∙◌, String, false, ◌==◌, none, List, [], ◌∷◌, ◌++◌,
  map, find, any, select, All, Evolves, Evolves-refl, Evolves-update, Evolves-trans, Bool-cases,
  inl, inr, length, Result, ok, err, ok_or, ok_or-eq-ok, not_found, map_err, internal, bind_ok,
  arith, eq_iff, find_sound, if◌then◌else◌, append_nil,
}
use nod.Proto.Request.{expired}
use nod.Env.{Env}
use nod.Store.{Db, RequestRow, EventRow}
use nod.Model.{DecisionRequest}
use nod.Lifecycle.{append_lifecycle_on, event_row}
use nod.Lifecycle.Inversion.{append_lifecycle_on-Logged}
use nod.Requests.Read.{
  get_request_on, row_to_request, request_from_rows, unsigned_request, recipients_of, decisions_of,
  options_of, digest_of,
}
use nod.Requests.Maintain.{expire_due_requests, announce, must_expire, mark_expired}

abbrev id_or : String → Result DecisionRequest → String
id_or d (ok request) = request.id
id_or d (err e) = d

row_to_request-id :
    (env : Env) (db : Db) (row : RequestRow) {request : DecisionRequest}
    → row_to_request env db row ≡ ok request
    → request.id ≡ row.id
unfolding row_to_request request_from_rows unsigned_request
row_to_request-id env db row {request} h =
    bind_ok
      (map_err internal (env.recipients_commitment (recipients_of db row.id) row.recipient_salt)) _
      h
      λ commitment c h1.
        let unsigned =
          unsigned_request row (recipients_of db row.id) (decisions_of db row.id)
            (options_of db row.id) in
        bind_ok (map_err internal (digest_of env unsigned commitment).1) _ h1
          λ digest d h2. ap (id_or row.id) (sym h2)

pub get_request_on-id :
    (env : Env) (db : Db) (id : String) {request : DecisionRequest}
    → get_request_on env db id ≡ ok request
    → request.id ≡ id
unfolding get_request_on
get_request_on-id env db id h =
    bind_ok (ok_or (find (λ r. r.id == id) db.requests) not_found) _ h λ row found h1.
      row_to_request-id env db row h1
      ∙ (eq_iff row.id id).0 (
          find_sound (λ r. r.id == id) db.requests
            (ok_or-eq-ok (find (λ r. r.id == id) db.requests) not_found found))

-- What the expiry may do to a request: the due ones expire, the others keep their status.
pub record Expires (now : ℕ) (before after : RequestRow) : Type 0 where
  pub id : after.id ≡ before.id
  pub status : after.status ≡ (if must_expire now before then expired else before.status)
  pub expires_at : after.expires_at ≡ before.expires_at

record Stays (before after : RequestRow) : Type 0 where
  id : after.id ≡ before.id
  status : after.status ≡ before.status
  expires_at : after.expires_at ≡ before.expires_at

Stays-refl : (r : RequestRow) → Stays r r
Stays-refl r = record { id = refl; status = refl; expires_at = refl }

Stays-trans : (a b c : RequestRow) → Stays a b → Stays b c → Stays a c
Stays-trans a b c h k = record {
  id = k.id ∙ h.id;
  status = k.status ∙ h.status;
  expires_at = k.expires_at ∙ h.expires_at;
}

bump-Stays :
    (id : String) (r : RequestRow)
    → Stays r (if r.id == id then record r { revision = r.revision + 1 } else r)
bump-Stays id r = elim (Bool-cases (r.id == id)) [
  | inl e ↦ rw e (record { id = refl; status = refl; expires_at = refl })
  | inr e ↦ rw e (Stays-refl r)
]

mark-Expires :
    (now : ℕ) (r : RequestRow)
    → Expires now r
        (if must_expire now r then record r { status = expired; updated_at = now } else r)
mark-Expires now r = elim (Bool-cases (must_expire now r)) [
  | inl e ↦ rw e (record { id = refl; status = rw e; expires_at = refl })
  | inr e ↦ rw e (record { id = refl; status = rw e; expires_at = refl })
]

then-Stays :
    (now : ℕ) {xs ys zs : List RequestRow}
    → Evolves (Expires now) xs ys
    → Evolves Stays ys zs
    → Evolves (Expires now) xs zs
then-Stays now {zs = zs} (Evolves.more ys) e = Evolves.more zs
then-Stays now (Evolves.row x e) (Evolves.row y f) =
    Evolves.row
      (record {
        id = y.id ∙ x.id;
        status = y.status ∙ x.status;
        expires_at = y.expires_at ∙ x.expires_at;
      })
      (then-Stays now e f)

-- The journal entries of an expiry, one to each id.
pub record Announced (ids : List String) (before after : List EventRow) : Type 0 where
  pub entries : List EventRow
  pub appended : after ≡ before ++ entries
  pub about : map (λ e. e.request_id) entries ≡ ids
  pub kinds : All (λ e. e.kind ≡ "nod.request.expired") entries

append_assoc {ℓ} : {A : Type ℓ} (xs ys zs : List A) → (xs ++ ys) ++ zs ≡ xs ++ (ys ++ zs)
append_assoc [] ys zs = refl
append_assoc (x ∷ xs) ys zs = ap (λ l. x ∷ l) (append_assoc xs ys zs)

announce_lem :
    (env : Env) (now : ℕ) (event_ids : ℕ → String) (ids : List String) (db : Db)
    {p : List DecisionRequest × Db}
    → announce env now event_ids ids db ≡ ok p
    → (map (λ q. q.id) p.0 ≡ ids)
      × Announced ids db.events p.1.events
      × Evolves Stays db.requests p.1.requests
unfolding announce
announce_lem env now event_ids [] db {p} h =
    let last : db ≡ p.1 = cc h in
    let none_found : [] ≡ p.0 = cc h in
    rw (← last, ← none_found)
      (
        refl,
        record { entries = []; appended = sym (append_nil db.events); about = refl; kinds = tt },
        Evolves-refl Stays Stays-refl db.requests,
      )
announce_lem env now event_ids (id ∷ ids) db {p} h =
    bind_ok (get_request_on env db id) _ h λ request found h1.
      bind_ok
        (append_lifecycle_on db now (event_ids (length ids)) request "nod.request.expired" none) _
        h1
        λ next logged h2. bind_ok (announce env now event_ids ids next) _ h2 λ rest announced h3.
          let l = append_lifecycle_on-Logged db now _ request _ none logged in
          let same : request.id ≡ id = get_request_on-id env db id found in
          let k = announce_lem env now event_ids ids next announced in
          let last : rest.1 ≡ p.1 = cc h3 in
          let all : request ∷ rest.0 ≡ p.0 = cc h3 in
          let bumped : Evolves Stays db.requests next.requests = rw l.shape (
            Evolves-update Stays (λ r. r.id == request.id) _ db.requests (bump-Stays request.id)) in
          rw (← last, ← all)
            (
              cc (same, k.0),
              record {
                entries = event_row db now _ request _ none _ _ ∷ k.1.entries;
                appended =
                    k.1.appended
                    ∙ ap (λ x. x ++ k.1.entries) (ap (λ x. x.events) l.shape)
                    ∙ append_assoc db.events _ k.1.entries;
                about = cc (same, k.1.about);
                kinds = (refl, k.1.kinds);
              },
              Evolves-trans Stays Stays-trans bumped k.2,
            )

announce-none_due :
    (env : Env) (now : ℕ) (event_ids : ℕ → String) (ids : List String) (db : Db)
    {p : List DecisionRequest × Db}
    → announce env now event_ids ids db ≡ ok p
    → any (must_expire now) db.requests ≡ false
    → any (must_expire now) p.1.requests ≡ false
unfolding announce
announce-none_due env now event_ids [] db {p} h none_due =
    let last : db ≡ p.1 = cc h in rw (← last) none_due
announce-none_due env now event_ids (id ∷ ids) db {p} h none_due =
    bind_ok (get_request_on env db id) _ h λ request found h1.
      bind_ok
        (append_lifecycle_on db now (event_ids (length ids)) request "nod.request.expired" none) _
        h1
        λ next logged h2. bind_ok (announce env now event_ids ids next) _ h2 λ rest announced h3.
          let l = append_lifecycle_on-Logged db now _ request _ none logged in
          let last : rest.1 ≡ p.1 = cc h3 in
          let bumped : any (must_expire now) next.requests ≡ false = rw l.shape (
            any-update-le (must_expire now) (must_expire now) (λ r. r.id == request.id)
              (λ r. record r { revision = r.revision + 1 }) db.requests (λ r k. ground arith)
              none_due) in
          rw (← last) (announce-none_due env now event_ids ids next announced bumped)

marked-none_due :
    (now : ℕ) (rows : List RequestRow) → any (must_expire now) (mark_expired now rows) ≡ false
marked-none_due now [] = refl
marked-none_due now (r ∷ rs) = ground (arith, marked-none_due now rs)

-- When the due requests are expired, exactly those that were pending at or past their expiry are:
-- the others keep their status, each expired one is returned and has one new journal entry of the
-- kind `nod.request.expired`, in the order of the table, and no due request is left.
pub expiry_is_exact :
    (env : Env) (db : Db) (now : ℕ) (event_ids : ℕ → String) {p : List DecisionRequest × Db}
    → expire_due_requests env db now event_ids ≡ ok p
    → let due = map (λ r. r.id) (select (must_expire now) db.requests) in
      (map (λ q. q.id) p.0 ≡ due)
      × Announced due db.events p.1.events
      × Evolves (Expires now) db.requests p.1.requests
      × (any (must_expire now) p.1.requests ≡ false)
unfolding expire_due_requests
expiry_is_exact env db now event_ids h =
    let marked = record db { requests = mark_expired now db.requests } in
    let k =
      announce_lem env now event_ids (map (λ r. r.id) (select (must_expire now) db.requests)) marked
        h in
    (
      k.0,
      k.1,
      then-Stays now
          (Evolves-update (Expires now) (must_expire now)
            (λ r. record r { status = expired; updated_at = now }) db.requests (mark-Expires now))
          k.2,
      announce-none_due env now event_ids _ marked h (marked-none_due now db.requests),
    )

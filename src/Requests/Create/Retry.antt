-- ===== src/Requests/Create/Retry.antt =====
-- A creation that is retried under its idempotency key (create.rs).
use nod.Base.{
  ℕ, ◌+◌, ◌≡◌, refl, ap, sym, ◌∙◌, String, false, not, ◌&&◌, ◌||◌, Option, none, some, List, [],
  ◌∷◌, ◌++◌, ◌==◌, find, is_some, ok, conflict, bind_ok, guard_ok, eq_refl, Bool-cases,
  Option-cases, inl, inr, find-append, if◌then◌else◌,
}
use nod.Proto.Request.{CreateDecisionRequest}
use nod.Env.{Env, Origin}
use nod.Store.{Db, RequestRow, IdempotencyRow, insert_row}
use nod.Model.{DecisionRequest, CreatedDecisionRequest}
use nod.Validation.{normalize_options}
use nod.Lifecycle.{append_lifecycle_on, origin_on, bump_revision}
use nod.Lifecycle.Inversion.{insert_row-eq-ok, append_lifecycle_on-Logged}
use nod.Requests.Read.{
  get_request_on, row_to_request, request_from_rows, unsigned_request, recipients_of, decisions_of,
  options_of,
}
use nod.Requests.Content.{CreateRequestMetadata, same_origin, same_content}
use nod.Requests.Insert.{
  Fresh, insert_request, insert_request_recipients, insert_options, push_rows, new_row,
  insert_origin, is_for_key,
}
use nod.Requests.Create.{bind_idempotency, insert_new, join_pending, bound_row, deduped}

-- A journal entry leaves the request readable, with the same contents.
find-bump :
    (id key : String) (rows : List RequestRow)
    → find (λ r. r.id == key) (bump_revision id rows) ≡ elim (find (λ r. r.id == key) rows) [
      | none ↦ none
      | some r ↦ some (if r.id == id then record r { revision = r.revision + 1 } else r)
    ]
find-bump id key [] = refl
find-bump id key (r ∷ rs) = elim (Bool-cases (r.id == id)) [
  | inl e ↦ elim (Bool-cases (r.id == key)) [
    | inl k ↦ rw (e, k, e)
    | inr k ↦ rw (e, k) (find-bump id key rs)
  ]
  | inr e ↦ elim (Bool-cases (r.id == key)) [
    | inl k ↦ rw (e, k, e)
    | inr k ↦ rw (e, k) (find-bump id key rs)
  ]
]

row_to_request-bump :
    (env : Env) (a b : Db) (row : RequestRow) (n : ℕ)
    → a.recipients ≡ b.recipients
    → a.options ≡ b.options
    → a.user_decisions ≡ b.user_decisions
    → row_to_request env a (record row { revision = n }) ≡ row_to_request env b row
unfolding row_to_request recipients_of decisions_of options_of request_from_rows unsigned_request
row_to_request-bump env a b row n p q r = rw (p, q, r) refl

get_request_on-append :
    (env : Env) (db : Db) (now : ℕ) (event_id : String) (request : DecisionRequest)
    (kind id : String) {after : Db}
    → append_lifecycle_on db now event_id request kind none ≡ ok after
    → get_request_on env after id ≡ get_request_on env db id
unfolding get_request_on
get_request_on-append env db now event_id request kind id h =
    let l = append_lifecycle_on-Logged db now event_id request kind none h in
    rw (l.shape, find-bump request.id id db.requests)
      (elim (Option-cases (find (λ r. r.id == id) db.requests)) [
        | inl e ↦ rw e
        | inr (row, e) ↦ rw e (elim (Bool-cases (row.id == request.id)) [
          | inl k ↦ rw k (row_to_request-bump env _ db row (row.revision + 1) refl refl refl)
          | inr k ↦ rw k (row_to_request-bump env _ db row row.revision refl refl refl)
        ])
      ])

get_request_on-idempotency :
    (env : Env) (db : Db) (rows : List IdempotencyRow) (id : String)
    → get_request_on env (record db { idempotency = rows }) id ≡ get_request_on env db id
unfolding get_request_on row_to_request recipients_of decisions_of options_of
get_request_on-idempotency env db rows id = refl

-- The key of a creation that succeeded is bound to its request.
pub record IsBound (env : Env) (db : Db) (scope channel_id key fingerprint id : String)
    : Type 0 where
  pub row : IdempotencyRow
  pub request : DecisionRequest
  pub found : bound_row db scope channel_id (some key) ≡ some row
  pub same : row.fingerprint ≡ fingerprint
  pub about : row.request_id ≡ id
  pub there : get_request_on env db id ≡ ok request

bind-IsBound :
    (env : Env) (db : Db) (scope channel_id key fingerprint id : String) {request : DecisionRequest}
    {after : Db}
    → bound_row db scope channel_id (some key) ≡ none
    → bind_idempotency db scope channel_id (some key) fingerprint id ≡ ok after
    → get_request_on env after id ≡ ok request
    → IsBound env after scope channel_id key fingerprint id
unfolding bind_idempotency
bind-IsBound env db scope channel_id key fingerprint id {request} {after} new h there =
    let row : IdempotencyRow = record {
      scope = scope;
      channel_id = channel_id;
      key = key;
      fingerprint = fingerprint;
      request_id = id;
    } in
    let is_row = λ (r : IdempotencyRow).
      (r.scope == scope) && (r.channel_id == channel_id) && (r.key == key) in
    bind_ok (insert_row is_row row db.idempotency) _ h λ rows inserted h1.
      let i = insert_row-eq-ok is_row row db.idempotency inserted in
      let last : record db { idempotency = rows } ≡ after = cc h1 in
      let known : bound_row (record db { idempotency = db.idempotency ++ row ∷ [] }) scope
            channel_id (some key)
          ≡ some row =
        find-append is_row db.idempotency (row ∷ []) i.0
        ∙ rw (eq_refl scope, eq_refl channel_id, eq_refl key) refl in
      record {
        row = row;
        request = request;
        found = rw (← last, i.1) known;
        same = refl;
        about = refl;
        there = there;
      }

-- The entry of a creation changes neither what is bound nor what is read.
append-IsBound :
    (env : Env) (db : Db) (now : ℕ) (event_id : String) (r : DecisionRequest) (kind : String)
    (scope channel_id key fingerprint id : String) {after : Db}
    → append_lifecycle_on db now event_id r kind none ≡ ok after
    → IsBound env db scope channel_id key fingerprint id
    → IsBound env after scope channel_id key fingerprint id
append-IsBound env db now event_id r kind scope channel_id key fingerprint id h b =
    let l = append_lifecycle_on-Logged db now event_id r kind none h in
    record {
      row = b.row;
      request = b.request;
      found = rw l.shape b.found;
      same = b.same;
      about = b.about;
      there = get_request_on-append env db now event_id r kind id h ∙ b.there;
    }

origin-IsBound :
    (env : Env) (db : Db) (place : String) (origin : Option Origin)
    (scope channel_id key fingerprint id : String) {after : Db}
    → insert_origin db place origin ≡ ok after
    → IsBound env db scope channel_id key fingerprint id
    → IsBound env after scope channel_id key fingerprint id
unfolding get_request_on row_to_request recipients_of decisions_of options_of
origin-IsBound env db place none scope channel_id key fingerprint id {after} h b =
    let last : db ≡ after = cc h in rw (← last) b
origin-IsBound env db place (some origin) scope channel_id key fingerprint id {after} h b =
    bind_ok
      (insert_row (λ r. r.request_id == place) (record { request_id = place; origin = origin })
        db.origins)
      _ h
      λ rows inserted h1.
        let last : record db { origins = rows } ≡ after = cc h1 in
        rw (← last) (record {
          row = b.row;
          request = b.request;
          found = b.found;
          same = b.same;
          about = b.about;
          there = b.there;
        })

-- What a creation with a key leaves behind.
abbrev pub Leaves : Env → String → String → String → String → CreatedDecisionRequest × Db → Type 0
Leaves env scope channel_id key fingerprint p =
    IsBound env p.1 scope channel_id key fingerprint p.0.request_id

bind-requests :
    (db : Db) (scope channel_id : String) (key : Option String) (fingerprint id : String)
    {after : Db}
    → bind_idempotency db scope channel_id key fingerprint id ≡ ok after
    → (rows : List IdempotencyRow) × (after ≡ record db { idempotency = rows })
unfolding bind_idempotency
bind-requests db scope channel_id none fingerprint id {after} h = (db.idempotency, cc h)
bind-requests db scope channel_id (some key) fingerprint id {after} h =
    bind_ok
      (insert_row (λ r. (r.scope == scope) && (r.channel_id == channel_id) && (r.key == key))
        (record {
          scope = scope;
          channel_id = channel_id;
          key = key;
          fingerprint = fingerprint;
          request_id = id;
        })
        db.idempotency)
      _ h λ rows inserted h1. (rows, cc h1)

pub insert_new-Leaves :
    (env : Env) (db : Db) (now : ℕ) (fresh : Fresh) (req : CreateDecisionRequest)
    (meta : CreateRequestMetadata) (recipients : List String) (scope key fingerprint : String)
    {p : CreatedDecisionRequest × Db}
    → ((inserted : Db)
        → insert_request db now fresh req meta recipients ≡ ok inserted
        → bound_row inserted scope req.channel_id (some key) ≡ none)
    → insert_new env db now fresh req meta recipients scope (some key) fingerprint ≡ ok p
    → Leaves env scope req.channel_id key fingerprint p
unfolding insert_new
insert_new-Leaves env db now fresh req meta recipients scope key fingerprint {p} new h =
    bind_ok (insert_request db now fresh req meta recipients) _ h λ inserted i h1.
      bind_ok
        (bind_idempotency inserted scope req.channel_id (some key) fingerprint fresh.request_id) _
        h1
        λ bound b h2. bind_ok (get_request_on env bound fresh.request_id) _ h2 λ request found h3.
          bind_ok (insert_origin bound fresh.request_id meta.origin) _ h3 λ placed o h4.
            bind_ok
              (append_lifecycle_on placed now fresh.event_id request "nod.request.created" none) _
              h4
              λ last logged h5.
                let same : (
                  record { request_id = fresh.request_id; deduped = false; request = request },
                  last,
                )
                    ≡ p =
                  cc h5 in
                let k =
                  bind-IsBound env inserted scope req.channel_id key fingerprint fresh.request_id
                    (new inserted i) b found in
                rw (← same) (
                  append-IsBound env placed now fresh.event_id request "nod.request.created" scope
                    req.channel_id key fingerprint fresh.request_id logged
                    (origin-IsBound env bound fresh.request_id meta.origin scope req.channel_id key
                      fingerprint fresh.request_id o k))

pub insert_request-idempotency :
    (db : Db) (now : ℕ) (fresh : Fresh) (req : CreateDecisionRequest) (meta : CreateRequestMetadata)
    (recipients : List String) {after : Db}
    → insert_request db now fresh req meta recipients ≡ ok after
    → after.idempotency ≡ db.idempotency
unfolding insert_request
insert_request-idempotency db now fresh req meta recipients {after} h =
    let clash = λ (r : RequestRow).
      (r.id == fresh.request_id)
      || elim req.dedupe_key [ none ↦ false | some key ↦ is_for_key req.channel_id key r ] in
    bind_ok (insert_row clash (new_row now fresh req meta) db.requests) _ h λ requests inserted h1.
      bind_ok (insert_request_recipients now fresh.request_id recipients db.recipients) _ h1
        λ recipient_rows addressed h2.
          bind_ok (insert_options now fresh.request_id (normalize_options req.options) db.options) _
            h2
            λ options offered h3.
              let same : record db {
                requests = requests;
                recipients = recipient_rows;
                options = options;
                pushes = db.pushes ++ push_rows now fresh.request_id recipient_rows db.devices;
              }
                  ≡ after =
                cc h3 in
              ap (λ (d : Db). d.idempotency) (sym same)

pub join-Leaves :
    (env : Env) (db : Db) (req : CreateDecisionRequest) (meta : CreateRequestMetadata)
    (recipients : List String) (request : DecisionRequest) (scope key fingerprint : String)
    {p : CreatedDecisionRequest × Db}
    → bound_row db scope req.channel_id (some key) ≡ none
    → get_request_on env db request.id ≡ ok request
    → join_pending db req meta recipients request scope (some key) fingerprint ≡ ok p
    → Leaves env scope req.channel_id key fingerprint p
unfolding join_pending
join-Leaves env db req meta recipients request scope key fingerprint {p} new there h =
    guard_ok
      ((is_some req.answer_field || is_some request.answer_field)
        && not (same_content db req meta recipients request))
      (conflict "pending value request has different content") _ h
      λ content h1.
        guard_ok (is_some meta.origin && not (same_origin (origin_on db request.id) meta.origin))
          (conflict "pending request has a different origin binding") _ h1
          λ origin h2.
            bind_ok (bind_idempotency db scope req.channel_id (some key) fingerprint request.id) _
              h2
              λ bound b h3.
                let same : (deduped request, bound) ≡ p = cc h3 in
                let shape =
                  bind-requests db scope req.channel_id (some key) fingerprint request.id b in
                rw (← same) (
                  bind-IsBound env db scope req.channel_id key fingerprint request.id
                    {request = request} new b
                    (rw shape.1 (get_request_on-idempotency env db shape.0 request.id ∙ there)))

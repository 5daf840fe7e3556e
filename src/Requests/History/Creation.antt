-- ===== src/Requests/History/Creation.antt =====
-- create.rs refines the abstract machine.
use nod.Base.{
  ℕ, ◌≡◌, refl, String, true, false, not, ◌&&◌, ◌||◌, Option, none, some, List, ◌++◌, ◌==◌, any,
  is_some, Result, ok, conflict, not_found, bad_request, bind_ok, then_ok, guard_ok, arith, eq_iff,
  any-false_mono,
}
use nod.Proto.Request.{is_pending, CreateDecisionRequest}
use nod.Env.{Env, Origin}
use nod.Store.{Db, RequestRow, IdempotencyRow, insert_row}
use nod.Model.{DecisionRequest, CreatedDecisionRequest}
use nod.Validation.{validate_request, validate_options, normalize_options}
use nod.Lifecycle.{append_lifecycle_on, origin_on}
use nod.Lifecycle.Inversion.{insert_row-eq-ok}
use nod.Requests.Read.{get_request_on}
use nod.Requests.Content.{CreateRequestMetadata, same_origin, same_content, or_else}
use nod.Requests.Insert.{
  Fresh, new_row, insert_request, insert_request_recipients, insert_options, push_rows,
  insert_origin, is_for_key,
}
use nod.Requests.Create.{
  bind_idempotency, insert_new, join_pending, replay, create_or_join, create_request,
  resolve_request_recipients, pending_match, bound_row, trimmed_key, bad_key, request_fingerprint,
}
use nod.Requests.History.{journal_of, insert, done, step, same_id, same_pending_key, same_text}
use nod.Requests.History.Steps.{Effect, Effect-refl, Effect-trans, append-Effect}

bind-Effect :
    (db : Db) (scope channel_id : String) (key : Option String) (fingerprint id : String)
    {after : Db}
    → bind_idempotency db scope channel_id key fingerprint id ≡ ok after
    → Effect db after
unfolding bind_idempotency
bind-Effect db scope channel_id none fingerprint id {after} h =
    let same : db ≡ after = cc h in rw (← same) (Effect-refl db)
bind-Effect db scope channel_id (some key) fingerprint id {after} h =
    bind_ok
      (insert_row (λ r. (r.scope == scope) && (r.channel_id == channel_id) && (r.key == key))
        (record {
          scope = scope;
          channel_id = channel_id;
          key = key;
          fingerprint = fingerprint;
          request_id = id;
        })
        db.idempotency)
      _ h
      λ rows inserted h1.
        let same : record db { idempotency = rows } ≡ after = cc h1 in
        rw (← same) (record { edits = done; nonces = λ p e. e })

origin-Effect :
    (db : Db) (id : String) (origin : Option Origin) {after : Db}
    → insert_origin db id origin ≡ ok after
    → Effect db after
origin-Effect db id none {after} h = let same : db ≡ after = cc h in rw (← same) (Effect-refl db)
origin-Effect db id (some origin) {after} h =
    bind_ok
      (insert_row (λ r. r.request_id == id) (record { request_id = id; origin = origin })
        db.origins)
      _ h
      λ rows inserted h1.
        let same : record db { origins = rows } ≡ after = cc h1 in
        rw (← same) (record { edits = done; nonces = λ p e. e })

-- The index on pending dedupe keys and the primary key keep a new request apart from the others.
new_apart :
    (channel_id id : String) (key : Option String) (new r : RequestRow)
    → new.id ≡ id
    → new.channel_id ≡ channel_id
    → new.dedupe_key ≡ key
    → (same_id new r || same_pending_key new r) ≡ true
    → ((r.id == id) || elim key [ none ↦ false | some k ↦ is_for_key channel_id k r ]) ≡ true
new_apart channel_id id key new r a b c h = apart key new.dedupe_key r.dedupe_key c refl h
  where
    apart :
        (key mine theirs : Option String)
        → mine ≡ key
        → theirs ≡ r.dedupe_key
        → (same_id new r
            || (is_pending new.status
                && is_pending r.status
                && (new.channel_id == r.channel_id)
                && same_text mine theirs))
          ≡ true
        → ((r.id == id) || elim key [ none ↦ false | some k ↦ is_for_key channel_id k r ]) ≡ true
    apart none mine theirs p q h = ground (arith, p, q, a, b, eq_iff new.id r.id, eq_iff r.id id)
    apart (some k) none theirs p q h = absurd (cc p)
    apart (some k) (some m) none p q h =
        ground (arith, p, q, a, b, eq_iff new.id r.id, eq_iff r.id id)
    apart (some k) (some m) (some t) p q h = ground (
      arith,
      p,
      q,
      a,
      b,
      eq_iff new.id r.id,
      eq_iff r.id id,
      eq_iff m t,
      eq_iff t k,
      eq_iff r.channel_id channel_id,
      eq_iff new.channel_id r.channel_id,
    )

insert-Effect :
    (db : Db) (now : ℕ) (fresh : Fresh) (req : CreateDecisionRequest) (meta : CreateRequestMetadata)
    (recipients : List String) {after : Db}
    → insert_request db now fresh req meta recipients ≡ ok after
    → Effect db after
unfolding insert_request new_row
insert-Effect db now fresh req meta recipients {after} h =
    let clash = λ (r : RequestRow).
      (r.id == fresh.request_id)
      || elim req.dedupe_key [ none ↦ false | some key ↦ is_for_key req.channel_id key r ] in
    let new = new_row now fresh req meta in
    bind_ok (insert_row clash new db.requests) _ h λ requests inserted h1.
      bind_ok (insert_request_recipients now fresh.request_id recipients db.recipients) _ h1
        λ recipient_rows addressed h2.
          bind_ok (insert_options now fresh.request_id (normalize_options req.options) db.options) _
            h2
            λ options offered h3.
              let row = insert_row-eq-ok clash new db.requests inserted in
              let free =
                any-false_mono (λ r. same_id new r || same_pending_key new r) clash db.requests
                  (λ r.
                    new_apart req.channel_id fresh.request_id req.dedupe_key new r refl refl refl)
                  row.0 in
              let same : record db {
                requests = requests;
                recipients = recipient_rows;
                options = options;
                pushes = db.pushes ++ push_rows now fresh.request_id recipient_rows db.devices;
              }
                  ≡ after =
                cc h3 in
              rw (← same, row.1)
                (record {
                  edits = step (insert (journal_of db) new refl free) done;
                  nonces = λ p e. e;
                })

insert_new-Effect :
    (env : Env) (db : Db) (now : ℕ) (fresh : Fresh) (req : CreateDecisionRequest)
    (meta : CreateRequestMetadata) (recipients : List String) (scope : String) (key : Option String)
    (fingerprint : String) {p : CreatedDecisionRequest × Db}
    → insert_new env db now fresh req meta recipients scope key fingerprint ≡ ok p
    → Effect db p.1
unfolding insert_new
insert_new-Effect env db now fresh req meta recipients scope key fingerprint {p} h =
    bind_ok (insert_request db now fresh req meta recipients) _ h λ inserted i h1.
      bind_ok (bind_idempotency inserted scope req.channel_id key fingerprint fresh.request_id) _ h1
        λ bound b h2. bind_ok (get_request_on env bound fresh.request_id) _ h2 λ request found h3.
          bind_ok (insert_origin bound fresh.request_id meta.origin) _ h3 λ placed o h4.
            bind_ok
              (append_lifecycle_on placed now fresh.event_id request "nod.request.created" none) _
              h4
              λ last logged h5.
                let same : last ≡ p.1 = cc h5 in
                rw (← same) (
                  Effect-trans (insert-Effect db now fresh req meta recipients i) (
                    Effect-trans
                      (bind-Effect inserted scope req.channel_id key fingerprint fresh.request_id b)
                      (Effect-trans (origin-Effect bound fresh.request_id meta.origin o)
                        (append-Effect placed now fresh.event_id request _ _ logged))))

join-Effect :
    (db : Db) (req : CreateDecisionRequest) (meta : CreateRequestMetadata)
    (recipients : List String) (request : DecisionRequest) (scope : String) (key : Option String)
    (fingerprint : String) {p : CreatedDecisionRequest × Db}
    → join_pending db req meta recipients request scope key fingerprint ≡ ok p
    → Effect db p.1
unfolding join_pending
join-Effect db req meta recipients request scope key fingerprint {p} h =
    guard_ok
      ((is_some req.answer_field || is_some request.answer_field)
        && not (same_content db req meta recipients request))
      (conflict "pending value request has different content") _ h
      λ content h1.
        guard_ok (is_some meta.origin && not (same_origin (origin_on db request.id) meta.origin))
          (conflict "pending request has a different origin binding") _ h1
          λ origin h2.
            bind_ok (bind_idempotency db scope req.channel_id key fingerprint request.id) _ h2
              λ bound b h3.
                let same : bound ≡ p.1 = cc h3 in
                rw (← same) (bind-Effect db scope req.channel_id key fingerprint request.id b)

create_or_join-Effect :
    (env : Env) (db : Db) (now : ℕ) (fresh : Fresh) (req : CreateDecisionRequest)
    (meta : CreateRequestMetadata) (scope : String) (key : Option String) (fingerprint : String)
    {p : CreatedDecisionRequest × Db}
    → create_or_join env db now fresh req meta scope key fingerprint ≡ ok p
    → Effect db p.1
unfolding create_or_join
create_or_join-Effect env db now fresh req meta scope key fingerprint {p} h =
    guard_ok (not (any (λ c. c.id == req.channel_id) db.channels)) not_found _ h λ there h1.
      bind_ok (resolve_request_recipients db req.channel_id req.recipients) _ h1 λ recipients r h2.
        bind_ok (pending_match env db req) _ h2 λ matching m h3. branch matching recipients h3
  where
    branch :
        (matching : Option DecisionRequest) (recipients : List String)
        → elim matching as (λ _. Result (CreatedDecisionRequest × Db)) [
          | some request ↦ join_pending db req meta recipients request scope key fingerprint
          | none ↦ insert_new env db now fresh req meta recipients scope key fingerprint
        ]
          ≡ ok p
        → Effect db p.1
    branch none recipients h =
        insert_new-Effect env db now fresh req meta recipients scope key fingerprint h
    branch (some request) recipients h =
        join-Effect db req meta recipients request scope key fingerprint h

replay-same :
    (env : Env) (db : Db) (row : IdempotencyRow) (fingerprint : String)
    {p : CreatedDecisionRequest × Db}
    → replay env db row fingerprint ≡ ok p
    → db ≡ p.1
unfolding replay
replay-same env db row fingerprint h =
    guard_ok (not (row.fingerprint == fingerprint))
      (conflict "idempotency_key was already used for different request content") _ h
      λ fits h1. bind_ok (get_request_on env db row.request_id) _ h1 λ request found h2. cc h2

pub create_request-Effect :
    (env : Env) (db : Db) (now : ℕ) (fresh : Fresh) (req : CreateDecisionRequest)
    (meta : CreateRequestMetadata) {p : CreatedDecisionRequest × Db}
    → create_request env db now fresh req meta ≡ ok p
    → Effect db p.1
unfolding create_request
create_request-Effect env db now fresh req meta {p} h =
    then_ok (validate_request env req) _ h λ fine h1.
      then_ok (validate_options req.options) _ h1 λ options h2.
        guard_ok (bad_key (trimmed_key meta.idempotency_key))
          (bad_request "idempotency_key must contain 1 to 128 bytes") _ h2
          λ key h3. bind_ok (request_fingerprint env req meta.origin) _ h3 λ fingerprint f h4.
            branch fingerprint
              (bound_row db (or_else meta.created_by_issuer_token_id "admin") req.channel_id
                (trimmed_key meta.idempotency_key))
              h4
  where
    branch :
        (fingerprint : String) (bound : Option IdempotencyRow)
        → elim bound as (λ _. Result (CreatedDecisionRequest × Db)) [
          | some row ↦ replay env db row fingerprint
          | none ↦
              create_or_join env db now fresh req meta
                (or_else meta.created_by_issuer_token_id "admin")
                (trimmed_key meta.idempotency_key)
                fingerprint
        ]
          ≡ ok p
        → Effect db p.1
    branch fingerprint none h = create_or_join-Effect env db now fresh req meta _ _ fingerprint h
    branch fingerprint (some row) h = rw (← replay-same env db row fingerprint h) (Effect-refl db)

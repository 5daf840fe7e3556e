-- ===== src/Requests/Create/Idempotence.antt =====
-- The idempotency key of create.rs, over the whole handler.
use nod.Base.{
  ℕ, ◌≡◌, refl, sym, ap, subst, ◌∙◌, String, true, not, ◌==◌, Option, none, some, List, any, find,
  Result, ok, bad_request, conflict, not_found, bind_ok, then_ok, guard_ok, eq_refl, eq_iff, arith,
}
use nod.Proto.Request.{CreateDecisionRequest}
use nod.Env.{Env}
use nod.Store.{Db, RequestRow, IdempotencyRow}
use nod.Model.{DecisionRequest, CreatedDecisionRequest}
use nod.Validation.{validate_request, validate_options}
use nod.Requests.Read.{get_request_on}
use nod.Requests.Content.{CreateRequestMetadata, or_else}
use nod.Requests.Maintain.Expiry.{get_request_on-id}
use nod.Requests.Insert.{Fresh, is_for_key}
use nod.Requests.Create.{
  insert_new, join_pending, replay, create_or_join, create_request, resolve_request_recipients,
  pending_match, bound_row, trimmed_key, bad_key, request_fingerprint, loaded,
  find_pending_request_by_dedupe_key, deduped,
}
use nod.Requests.Create.Retry.{Leaves, insert_new-Leaves, join-Leaves, insert_request-idempotency}

there_by_id :
    (env : Env) (db : Db) (id : String) {request : DecisionRequest}
    → get_request_on env db id ≡ ok request
    → get_request_on env db request.id ≡ ok request
there_by_id env db id h = ap (get_request_on env db) (get_request_on-id env db id h) ∙ h

loaded-there :
    (env : Env) (db : Db) (row : Option RequestRow) {request : DecisionRequest}
    → loaded env db row ≡ ok (some request)
    → get_request_on env db request.id ≡ ok request
loaded-there env db none h = absurd (cc h)
loaded-there env db (some row) {request} h =
    bind_ok (get_request_on env db row.id) _ h
      λ found e h1. let same : found ≡ request = cc h1 in rw (← same) (there_by_id env db row.id e)

matched-there :
    (env : Env) (db : Db) (req : CreateDecisionRequest) (key : Option String)
    {request : DecisionRequest}
    → elim key as (λ _. Result (Option DecisionRequest)) [
      | none ↦ ok none
      | some k ↦ find_pending_request_by_dedupe_key env db req.channel_id k
    ]
      ≡ ok (some request)
    → get_request_on env db request.id ≡ ok request
unfolding find_pending_request_by_dedupe_key
matched-there env db req none h = absurd (cc h)
matched-there env db req (some k) h =
    loaded-there env db (find (is_for_key req.channel_id k) db.requests) h

create_or_join-Leaves :
    (env : Env) (db : Db) (now : ℕ) (fresh : Fresh) (req : CreateDecisionRequest)
    (meta : CreateRequestMetadata) (scope key fingerprint : String)
    {p : CreatedDecisionRequest × Db}
    → bound_row db scope req.channel_id (some key) ≡ none
    → create_or_join env db now fresh req meta scope (some key) fingerprint ≡ ok p
    → Leaves env scope req.channel_id key fingerprint p
unfolding create_or_join
create_or_join-Leaves env db now fresh req meta scope key fingerprint {p} new h =
    guard_ok (not (any (λ c. c.id == req.channel_id) db.channels)) not_found _ h λ there h1.
      bind_ok (resolve_request_recipients db req.channel_id req.recipients) _ h1 λ recipients r h2.
        bind_ok (pending_match env db req) _ h2 λ matching m h3. branch matching recipients m h3
  where
    branch :
        (matching : Option DecisionRequest) (recipients : List String)
        → pending_match env db req ≡ ok matching
        → elim matching as (λ _. Result (CreatedDecisionRequest × Db)) [
          | some request ↦ join_pending db req meta recipients request scope (some key) fingerprint
          | none ↦ insert_new env db now fresh req meta recipients scope (some key) fingerprint
        ]
          ≡ ok p
        → Leaves env scope req.channel_id key fingerprint p
    branch none recipients m h =
        insert_new-Leaves env db now fresh req meta recipients scope key fingerprint
          (λ inserted i. rw (insert_request-idempotency db now fresh req meta recipients i) new) h
    branch (some request) recipients m h =
        join-Leaves env db req meta recipients request scope key fingerprint new
          (matched-there env db req req.dedupe_key m) h

replay-Leaves :
    (env : Env) (db : Db) (row : IdempotencyRow) (scope channel_id key fingerprint : String)
    {p : CreatedDecisionRequest × Db}
    → bound_row db scope channel_id (some key) ≡ some row
    → replay env db row fingerprint ≡ ok p
    → Leaves env scope channel_id key fingerprint p
unfolding replay
replay-Leaves env db row scope channel_id key fingerprint {p} found h =
    guard_ok (not (row.fingerprint == fingerprint))
      (conflict "idempotency_key was already used for different request content") _ h
      λ fits h1. bind_ok (get_request_on env db row.request_id) _ h1 λ request there h2.
        let last : (deduped request, db) ≡ p = cc h2 in
        let id = get_request_on-id env db row.request_id there in
        rw (← last) (record {
          row = row;
          request = request;
          found = found;
          same = (eq_iff row.fingerprint fingerprint).0 (ground (arith, fits));
          about = sym id;
          there = there_by_id env db row.request_id there;
        })

branch-Leaves :
    (env : Env) (db : Db) (now : ℕ) (fresh : Fresh) (req : CreateDecisionRequest)
    (meta : CreateRequestMetadata) (scope key fingerprint : String) (bound : Option IdempotencyRow)
    {p : CreatedDecisionRequest × Db}
    → bound_row db scope req.channel_id (some key) ≡ bound
    → elim bound as (λ _. Result (CreatedDecisionRequest × Db)) [
      | some row ↦ replay env db row fingerprint
      | none ↦ create_or_join env db now fresh req meta scope (some key) fingerprint
    ]
      ≡ ok p
    → Leaves env scope req.channel_id key fingerprint p
branch-Leaves env db now fresh req meta scope key fingerprint none e h =
    create_or_join-Leaves env db now fresh req meta scope key fingerprint e h
branch-Leaves env db now fresh req meta scope key fingerprint (some row) e h =
    replay-Leaves env db row scope req.channel_id key fingerprint e h

keyed-Leaves :
    (env : Env) (db : Db) (now : ℕ) (fresh : Fresh) (req : CreateDecisionRequest)
    (meta : CreateRequestMetadata) (scope key fingerprint : String) (named : Option String)
    {p : CreatedDecisionRequest × Db}
    → named ≡ some key
    → elim (bound_row db scope req.channel_id named)
        as (λ _. Result (CreatedDecisionRequest × Db)) [
          | some row ↦ replay env db row fingerprint
          | none ↦ create_or_join env db now fresh req meta scope named fingerprint
        ]
      ≡ ok p
    → Leaves env scope req.channel_id key fingerprint p
keyed-Leaves env db now fresh req meta scope key fingerprint none e h = absurd (cc e)
keyed-Leaves env db now fresh req meta scope key fingerprint (some k) {p} e h =
    let same : k ≡ key = cc e in
    subst (λ x. Leaves env scope req.channel_id x fingerprint p) same
      (branch-Leaves env db now fresh req meta scope k fingerprint
        (bound_row db scope req.channel_id (some k)) refl h)

-- A creation may be retried under its idempotency key: when it has succeeded, the same call on the
-- database that it left, at any time and with any fresh ids, succeeds, names the same request as a
-- duplicate, and changes nothing.
pub retried_creation_is_idempotent :
    (env : Env) (db : Db) (now now' : ℕ) (fresh fresh' : Fresh) (req : CreateDecisionRequest)
    (meta : CreateRequestMetadata) (key : String) {p : CreatedDecisionRequest × Db}
    → trimmed_key meta.idempotency_key ≡ some key
    → create_request env db now fresh req meta ≡ ok p
    → (request : DecisionRequest) × (create_request env p.1 now' fresh' req meta
        ≡ ok (record { request_id = p.0.request_id; deduped = true; request = request }, p.1))
unfolding create_request replay
retried_creation_is_idempotent env db now now' fresh fresh' req meta key {p} named h =
    let scope = or_else meta.created_by_issuer_token_id "admin" in
    then_ok (validate_request env req) _ h λ fine h1.
      then_ok (validate_options req.options) _ h1 λ options h2.
        guard_ok (bad_key (trimmed_key meta.idempotency_key))
          (bad_request "idempotency_key must contain 1 to 128 bytes") _ h2
          λ good h3. bind_ok (request_fingerprint env req meta.origin) _ h3 λ fingerprint f h4.
            let b =
              keyed-Leaves env db now fresh req meta scope key fingerprint
                (trimmed_key meta.idempotency_key) {p = p} named h4 in
            let id = get_request_on-id env p.1 p.0.request_id b.there in
            (
              b.request,
              rw
                  (
                    fine,
                    options,
                    good,
                    f,
                    named,
                    b.found,
                    b.same,
                    eq_refl fingerprint,
                    b.about,
                    b.there,
                    id,
                  )
                  refl,
            )

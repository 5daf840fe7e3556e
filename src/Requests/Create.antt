-- ===== src/Requests/Create.antt =====
-- server/nod-server/crates/nod-server/src/db/requests/create.rs. The ids and the salt that the code
-- draws at random, and the clock, are arguments.
pub mod Retry
pub mod Idempotence
use nod.Base.{
  ℕ, String, Bool, true, false, not, ◌&&◌, ◌||◌, Option, none, some, List, [], ◌∷◌, ◌++◌, map, ◌==◌,
  ltb, eqb, any, find, select, sort_by, text_lt, is_some, is_none, is_empty, is_blank,
  if◌then◌else◌, holds, trim, take_chars, first_line, byte_len, every_char, Result, ok, err,
  bad_request, conflict, not_found, internal, refuse_if, ok_or, ◌>>=◌, ◌>>◌, String-discrete,
  ℕ_discrete,
}
use nod.Proto.Answer.{AnswerField-discrete}
use nod.Proto.Request.{
  CardField-discrete, CardLink-discrete, RequestNotification, RequestNotification-discrete,
  RequestOption, RequestOption-discrete, pending, DecisionResolution, DecisionResolution-discrete,
  shared, CreateDecisionRequest, is_pending,
}
use nod.Env.{Env, Origin}
use nod.Store.{
  Db, ChannelRow, UserRow, SubscriptionRow, DeviceRow, RequestRow, RecipientRow, OptionRow,
  IdempotencyRow, OriginRow, PushRow, insert_row,
}
use nod.Model.{DecisionRequest, CreatedDecisionRequest}
use nod.Validation.{validate_id, validate_request, validate_options, normalize_options}
use nod.Lifecycle.{validate_origin, origin_on, append_lifecycle_on}
use nod.Requests.Read.{get_request_on}
use nod.Requests.Insert.{
  Fresh, is_for_key, new_row, insert_request_recipients, insert_options, is_pushable, push_rows,
  insert_request, insert_origin,
}
use nod.Requests.Content.{
  CreateRequestMetadata, or_else, normalized_notification, summary_of, same_content, same_origin,
}

-- The loop over the requested recipients.
unfoldable pub named_recipients : Db → List String → List String → Result (List String)
unfolding validate_id trim
named_recipients db found [] = ok found
named_recipients db found (name ∷ names) =
    let user_id = trim name in
    let rest =
      named_recipients db (if any (λ u. u == user_id) found then found else found ++ user_id ∷ [])
        names in
    do
      validate_id user_id "user id"
      refuse_if (not (any (λ u. (u.id == user_id) && is_none u.deleted_at) db.users)) not_found
      rest

unfoldable pub subscribers : Db → String → List String
subscribers db channel_id = sort_by text_lt (
    map (λ s. s.user_id)
      (select
        (λ s.
          (s.channel_id == channel_id)
          && s.subscribed
          && any (λ u. (u.id == s.user_id) && is_none u.deleted_at) db.users)
        db.subscriptions))

unfoldable pub resolve_request_recipients :
    Db → String → Option (List String) → Result (List String)
unfolding named_recipients subscribers
resolve_request_recipients db channel_id none = ok (subscribers db channel_id)
resolve_request_recipients db channel_id (some []) =
    err (bad_request "recipients must not be empty when provided")
resolve_request_recipients db channel_id (some (name ∷ names)) =
    named_recipients db [] (name ∷ names)

abbrev pub loaded : Env → Db → Option RequestRow → Result (Option DecisionRequest)
loaded env db none = ok none
loaded env db (some row) = do request ← get_request_on env db row.id; ok (some request)

unfoldable pub find_pending_request_by_dedupe_key :
    Env → Db → String → String → Result (Option DecisionRequest)
find_pending_request_by_dedupe_key env db channel_id key =
    loaded env db (find (is_for_key channel_id key) db.requests)

unfoldable pub bind_idempotency : Db → String → String → Option String → String → String → Result Db
bind_idempotency db scope channel_id none fingerprint request_id = ok db
bind_idempotency db scope channel_id (some key) fingerprint request_id = do
  rows ←
      insert_row (λ r. (r.scope == scope) && (r.channel_id == channel_id) && (r.key == key))
        (record {
          scope = scope;
          channel_id = channel_id;
          key = key;
          fingerprint = fingerprint;
          request_id = request_id;
        })
        db.idempotency
  ok (record db { idempotency = rows })

abbrev pub deduped : DecisionRequest → CreatedDecisionRequest
deduped request = record { request_id = request.id; deduped = true; request = request }

-- The whole insertion, behind the checks.
unfoldable pub insert_new :
    Env
    → Db
    → ℕ
    → Fresh
    → CreateDecisionRequest
    → CreateRequestMetadata
    → List String
    → (scope : String) (key : Option String) (fingerprint : String)
    → Result (CreatedDecisionRequest × Db)
insert_new env db now fresh req meta recipients scope key fingerprint = do
  inserted ← insert_request db now fresh req meta recipients
  bound ← bind_idempotency inserted scope req.channel_id key fingerprint fresh.request_id
  request ← get_request_on env bound fresh.request_id
  placed ← insert_origin bound fresh.request_id meta.origin
  done ← append_lifecycle_on placed now fresh.event_id request "nod.request.created" none
  ok (record { request_id = fresh.request_id; deduped = false; request = request }, done)

-- The dedupe branch for a pending request with the same key.
unfoldable pub join_pending :
    Db
    → CreateDecisionRequest
    → CreateRequestMetadata
    → List String
    → DecisionRequest
    → (scope : String) (key : Option String) (fingerprint : String)
    → Result (CreatedDecisionRequest × Db)
join_pending db req meta recipients request scope key fingerprint = do
  refuse_if
      ((is_some req.answer_field || is_some request.answer_field)
        && not (same_content db req meta recipients request))
      (conflict "pending value request has different content")
  refuse_if (is_some meta.origin && not (same_origin (origin_on db request.id) meta.origin))
      (conflict "pending request has a different origin binding")
  bound ← bind_idempotency db scope req.channel_id key fingerprint request.id
  ok (deduped request, bound)

abbrev pub pending_match : Env → Db → CreateDecisionRequest → Result (Option DecisionRequest)
pending_match env db req = elim req.dedupe_key [
  | none ↦ ok none
  | some key ↦ find_pending_request_by_dedupe_key env db req.channel_id key
]

-- From the existence of the channel on.
unfoldable pub create_or_join :
    Env
    → Db
    → ℕ
    → Fresh
    → CreateDecisionRequest
    → CreateRequestMetadata
    → (scope : String) (key : Option String) (fingerprint : String)
    → Result (CreatedDecisionRequest × Db)
create_or_join env db now fresh req meta scope key fingerprint = do
  refuse_if (not (any (λ c. c.id == req.channel_id) db.channels)) not_found
  recipients ← resolve_request_recipients db req.channel_id req.recipients
  matching ← pending_match env db req
  elim matching [
    | some request ↦ join_pending db req meta recipients request scope key fingerprint
    | none ↦ insert_new env db now fresh req meta recipients scope key fingerprint
  ]

abbrev pub bound_row : Db → String → String → Option String → Option IdempotencyRow
bound_row db scope channel_id none = none
bound_row db scope channel_id (some key) =
    find (λ r. (r.scope == scope) && (r.channel_id == channel_id) && (r.key == key)) db.idempotency

-- A key that was used before: the same request again, or a conflict.
unfoldable pub replay : Env → Db → IdempotencyRow → String → Result (CreatedDecisionRequest × Db)
replay env db row fingerprint = do
  refuse_if (not (row.fingerprint == fingerprint))
      (conflict "idempotency_key was already used for different request content")
  request ← get_request_on env db row.request_id
  ok (deduped request, db)

abbrev pub bad_key : Option String → Bool
bad_key none = false
bad_key (some key) = is_blank key || ltb 128 (byte_len key)

abbrev pub trimmed_key : Option String → Option String
trimmed_key none = none
trimmed_key (some key) = some (trim key)

unfoldable pub request_fingerprint : Env → CreateDecisionRequest → Option Origin → Result String
request_fingerprint env req none = ok (env.fingerprint req)
request_fingerprint env req (some origin) = do
  validate_origin origin
  ok (env.origin_fingerprint (env.fingerprint req) origin)

unfoldable pub create_request :
    Env
    → Db
    → ℕ
    → Fresh
    → CreateDecisionRequest
    → CreateRequestMetadata
    → Result (CreatedDecisionRequest × Db)
create_request env db now fresh req meta = do
  validate_request env req
  validate_options req.options
  let key = trimmed_key meta.idempotency_key
  refuse_if (bad_key key) (bad_request "idempotency_key must contain 1 to 128 bytes")
  fingerprint ← request_fingerprint env req meta.origin
  let scope = or_else meta.created_by_issuer_token_id "admin"
  elim (bound_row db scope req.channel_id key) [
    | some row ↦ replay env db row fingerprint
    | none ↦ create_or_join env db now fresh req meta scope key fingerprint
  ]

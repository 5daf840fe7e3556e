-- ===== src/Requests/Insert.antt =====
-- The rows of a new request in server/nod-server/crates/nod-server/src/db/requests/create.rs. The ids and
-- the salt that the code draws at random, and the clock, are arguments.
use nod.Base.{
  ℕ, String, Bool, false, not, ◌&&◌, ◌||◌, Option, none, some, List, [], ◌∷◌, ◌++◌, map, ◌==◌, eqb,
  any, select, is_some, is_none, trim, every_char, Result, ok, ◌>>=◌,
}
use nod.Proto.Request.{RequestOption, pending, shared, CreateDecisionRequest, is_pending}
use nod.Env.{Origin}
use nod.Store.{Db, DeviceRow, RequestRow, RecipientRow, OptionRow, PushRow, insert_row}
use nod.Validation.{normalize_options}
use nod.Requests.Content.{CreateRequestMetadata, or_else, normalized_notification, summary_of}

-- What `new_id()` and `randomblob` give to one call.
pub record Fresh : Type 0 where
  pub request_id : String
  pub recipient_salt : String
  pub event_id : String

abbrev pub is_for_key : String → String → RequestRow → Bool
is_for_key channel_id key r =
    (r.channel_id == channel_id)
    && is_pending r.status
    && elim r.dedupe_key [ none ↦ false | some k ↦ k == key ]

-- The rows of a new request.
unfoldable pub new_row : ℕ → Fresh → CreateDecisionRequest → CreateRequestMetadata → RequestRow
unfolding normalized_notification summary_of trim
new_row now fresh req meta = record {
  id = fresh.request_id;
  channel_id = req.channel_id;
  title = trim req.title;
  summary = trim (summary_of req);
  body_markdown = trim req.body_markdown;
  fields = req.fields;
  links = req.links;
  image_url = req.image_url;
  notification = normalized_notification req.notification;
  dedupe_key = req.dedupe_key;
  expires_at = req.expires_at;
  status = pending;
  created_at = now;
  updated_at = now;
  resolved_at = none;
  decision = none;
  callback_url = req.callback_url;
  decision_resolution = or_else req.decision_resolution shared;
  recipient_salt = fresh.recipient_salt;
  explicit_recipients = is_some req.recipients;
  revision = 0;
  created_by_issuer_token_id = meta.created_by_issuer_token_id;
  answer_field = req.answer_field;
}

unfoldable pub insert_request_recipients :
    ℕ → String → List String → List RecipientRow → Result (List RecipientRow)
insert_request_recipients now id [] rows = ok rows
insert_request_recipients now id (user_id ∷ users) rows = do
  rows' ←
      insert_row (λ r. (r.request_id == id) && (r.user_id == user_id))
        (record { request_id = id; user_id = user_id; created_at = now }) rows
  insert_request_recipients now id users rows'

unfoldable pub insert_options :
    ℕ → String → List RequestOption → List OptionRow → Result (List OptionRow)
insert_options now id [] rows = ok rows
insert_options now id (option ∷ options) rows = do
  rows' ←
      insert_row (λ r. (r.request_id == id) && (r.option.id == option.id))
        (record { request_id = id; option = option; created_at = now }) rows
  insert_options now id options rows'

-- `TRIM(x)!=''`: SQLite's `TRIM` takes off spaces only.
abbrev has_text : Option String → Bool
has_text none = false
has_text (some s) = not (every_char (eqb 32) s)

abbrev pub is_pushable : DeviceRow → Bool
is_pushable d = is_none d.revoked_at && has_text d.push_token && has_text d.native_app_id

abbrev queued_push : ℕ → String → DeviceRow → PushRow
queued_push now id d = record {
  request_id = id;
  device_id = d.id;
  status = "queued";
  attempts = 0;
  lease_until = none;
  claim_generation = 0;
  updated_at = now;
  error = none;
}

-- `INSERT INTO push_deliveries … SELECT … FROM devices JOIN request_recipients`.
unfoldable pub push_rows : ℕ → String → List RecipientRow → List DeviceRow → List PushRow
push_rows now id recipients devices = map (queued_push now id) (
    select
      (λ d. is_pushable d && any (λ r. (r.user_id == d.user_id) && (r.request_id == id)) recipients)
      devices)

unfoldable pub insert_request :
    Db → ℕ → Fresh → CreateDecisionRequest → CreateRequestMetadata → List String → Result Db
insert_request db now fresh req meta recipients = do
  requests ←
      insert_row
        (λ r.
          (r.id == fresh.request_id)
          || elim req.dedupe_key [ none ↦ false | some key ↦ is_for_key req.channel_id key r ])
        (new_row now fresh req meta) db.requests
  recipient_rows ← insert_request_recipients now fresh.request_id recipients db.recipients
  options ← insert_options now fresh.request_id (normalize_options req.options) db.options
  ok (record db {
    requests = requests;
    recipients = recipient_rows;
    options = options;
    pushes = db.pushes ++ push_rows now fresh.request_id recipient_rows db.devices;
  })

abbrev pub insert_origin : Db → String → Option Origin → Result Db
insert_origin db id none = ok db
insert_origin db id (some origin) = do
  rows ←
      insert_row (λ r. r.request_id == id) (record { request_id = id; origin = origin }) db.origins
  ok (record db { origins = rows })

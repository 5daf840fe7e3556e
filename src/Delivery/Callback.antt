-- ===== src/Delivery/Callback.antt =====
-- server/nod-server/crates/nod-server/src/db/callback_deliveries.rs. Lease tokens are arguments.
pub mod Order
pub mod Completion
use nod.Base.{
  ℕ, ◌+◌, ◌*◌, ◌^◌, min, String, Bool, true, false, not, ◌&&◌, ◌||◌, Option, none, some, List, ◌==◌,
  ltb, leb, eqb, any, select, update, sort_by, count_where, find, text_lt, if◌then◌else◌, Result,
  ok, err, bad_request, refuse_if, ◌>>=◌, ◌>>◌,
}
use nod.Store.{
  CallbackRow, CallbackState, CallbackPayload, queued, sending, retrying, blocked_policy, delivered,
}

pub record CallbackClaim : Type 0 where
  pub delivery_id : String
  pub event_id : String
  pub request_revision : ℕ
  pub url : String
  pub payload : CallbackPayload
  pub lease_token : String
  pub attempts : ℕ

abbrev pub is_delivered : CallbackState → Bool
is_delivered delivered = true
is_delivered _ = false

abbrev pub is_sending : CallbackState → Bool
is_sending sending = true
is_sending _ = false

-- `lease_until IS NULL OR lease_until<=now`, and `lease_until>now`.
abbrev pub lease_over : ℕ → Option ℕ → Bool
lease_over now none = true
lease_over now (some t) = leb t now

abbrev pub lease_live : ℕ → Option ℕ → Bool
lease_live now none = false
lease_live now (some t) = ltb now t

-- `older` holds `c` back.
abbrev pub holds_back : CallbackRow → CallbackRow → Bool
holds_back c older =
    (older.request_id == c.request_id)
    && ltb older.request_revision c.request_revision
    && not (is_delivered older.state)

abbrev pub is_due : ℕ → List CallbackRow → CallbackRow → Bool
is_due now rows c =
    not (is_delivered c.state)
    && leb c.next_attempt_at now
    && lease_over now c.lease_until
    && not (any (holds_back c) rows)

-- `ORDER BY c.next_attempt_at,c.request_revision,c.delivery_id`.
abbrev comes_first : CallbackRow → CallbackRow → Bool
comes_first a b =
    ltb a.next_attempt_at b.next_attempt_at
    || eqb a.next_attempt_at b.next_attempt_at
      && (ltb a.request_revision b.request_revision
          || eqb a.request_revision b.request_revision && text_lt a.delivery_id b.delivery_id)

abbrev first {ℓ} : {A : Type ℓ} → List A → Option A
first xs = find (λ x. true) xs

-- The row that the subquery picks.
unfoldable pub next_due : ℕ → List CallbackRow → Option CallbackRow
next_due now rows = first (sort_by comes_first (select (is_due now rows) rows))

abbrev pub leased : ℕ → String → CallbackRow → CallbackRow
leased now token r = record r {
  state = sending;
  lease_token = some token;
  lease_until = some (now + 30000);
  attempts = r.attempts + 1;
  updated_at = now;
}

abbrev pub claim_of : String → CallbackRow → CallbackClaim
claim_of token r = record {
  delivery_id = r.delivery_id;
  event_id = r.event_id;
  request_revision = r.request_revision;
  url = r.url;
  payload = r.payload;
  lease_token = token;
  attempts = r.attempts;
}

claim_row :
    ℕ → String → List CallbackRow → Option CallbackRow → Option CallbackClaim × List CallbackRow
claim_row now token rows none = (none, rows)
claim_row now token rows (some c) = (
  some (claim_of token (leased now token c)),
  update (λ r. r.delivery_id == c.delivery_id) (leased now token) rows,
)

unfoldable pub claim_due : ℕ → String → List CallbackRow → Option CallbackClaim × List CallbackRow
unfolding claim_row next_due
claim_due now token rows = claim_row now token rows (next_due now rows)

abbrev is_token : Option String → String → Bool
is_token none token = false
is_token (some t) token = t == token

-- The `WHERE` of a report: the claim is still held.
abbrev pub holds_claim : ℕ → CallbackClaim → CallbackRow → Bool
holds_claim now claim r =
    (r.delivery_id == claim.delivery_id)
    && is_sending r.state
    && is_token r.lease_token claim.lease_token
    && lease_live now r.lease_until

abbrev pub completed : ℕ → ℕ → CallbackRow → CallbackRow
completed now status r = record r {
  state = delivered;
  delivered_at = some now;
  updated_at = now;
  last_status = some status;
  last_error = none;
  lease_token = none;
  lease_until = none;
}

unfoldable pub complete :
    ℕ → CallbackClaim → ℕ → List CallbackRow → Result (Bool × List CallbackRow)
complete now claim status rows = do
  refuse_if (not (leb 200 status && ltb status 300)) (bad_request "callback success requires 2xx")
  ok (
    eqb (count_where (holds_claim now claim) rows) 1,
    update (holds_claim now claim) (completed now status) rows,
  )

-- Seconds until the next try.
unfoldable pub retry_delay : Bool → ℕ → ℕ
retry_delay blocked attempts = if blocked then 300 else min (2 ^ min attempts 12) 3600

abbrev retried : ℕ → ℕ → Option ℕ → Bool → CallbackRow → CallbackRow
retried now delay status blocked r = record r {
  state = if blocked then blocked_policy else retrying;
  next_attempt_at = now + delay * 1000;
  updated_at = now;
  last_status = status;
  last_error = some (if blocked then "policy_denied" else "delivery_failed");
  lease_token = none;
  lease_until = none;
}

unfoldable pub retry :
    ℕ → CallbackClaim → Option ℕ → Bool → List CallbackRow → Bool × List CallbackRow
unfolding retry_delay
retry now claim status blocked rows = (
  eqb (count_where (holds_claim now claim) rows) 1,
  update (holds_claim now claim) (retried now (retry_delay blocked claim.attempts) status blocked)
      rows,
)

-- ===== src/Delivery/Publish.antt =====
-- The publisher's queue of server/nod-server/crates/nod-server/src/db/lifecycle.rs: journal entries are
-- claimed, published once and retried with a growing delay. Lease tokens are arguments.
pub mod Once
use nod.Base.{
  ℕ, ◌+◌, ◌*◌, ◌^◌, min, max, String, Bool, true, false, ◌&&◌, Option, none, some, List, [], ◌∷◌,
  map, ◌==◌, ltb, leb, eqb, find, is_none, select, take, update, count_where, if◌then◌else◌,
}
use nod.Store.{EventRow}
use nod.Delivery.Callback.{lease_over, lease_live}

pub record PublishClaim : Type 0 where
  pub event_id : String
  pub kind : String
  pub lease_token : String
  pub attempts : ℕ

-- `COALESCE(MAX(seq),0)`.
unfoldable pub high_water : List EventRow → ℕ
high_water [] = 0
high_water (e ∷ es) = max e.seq (high_water es)

-- The rows stand in the order of `seq`.
unfoldable pub scan : ℕ → ℕ → ℕ → List EventRow → List EventRow
scan after through limit rows = take limit (select (λ e. ltb after e.seq && leb e.seq through) rows)

unfoldable pub detail : String → List EventRow → Option EventRow
detail id = find (λ e. e.event_id == id)

abbrev pub is_due : ℕ → EventRow → Bool
is_due now e = is_none e.published_at && leb e.next_attempt_at now && lease_over now e.lease_until

abbrev pub leased : ℕ → String → EventRow → EventRow
leased now token e = record e {
  lease_token = some token;
  lease_until = some (now + 60000);
  attempts = e.attempts + 1;
}

claim_event : ℕ → String → List EventRow → Option EventRow → Option PublishClaim × List EventRow
claim_event now token rows none = (none, rows)
claim_event now token rows (some e) = (
  some (record {
    event_id = e.event_id;
    kind = e.kind;
    lease_token = token;
    attempts = e.attempts + 1;
  }),
  update (λ r. eqb r.seq e.seq) (leased now token) rows,
)

unfoldable pub claim_due : ℕ → String → List EventRow → Option PublishClaim × List EventRow
unfolding claim_event
claim_due now token rows = claim_event now token rows (find (is_due now) rows)

abbrev is_token : Option String → String → Bool
is_token none token = false
is_token (some t) token = t == token

abbrev pub holds_claim : ℕ → PublishClaim → EventRow → Bool
holds_claim now claim e =
    (e.event_id == claim.event_id)
    && is_token e.lease_token claim.lease_token
    && lease_live now e.lease_until
    && is_none e.published_at

abbrev pub marked : ℕ → ℕ → EventRow → EventRow
marked now stream_seq e = record e {
  published_at = some now;
  stream_seq = some stream_seq;
  lease_token = none;
  lease_until = none;
  last_error = none;
}

unfoldable pub published : ℕ → PublishClaim → ℕ → List EventRow → Bool × List EventRow
published now claim stream_seq rows = (
  eqb (count_where (holds_claim now claim) rows) 1,
  update (holds_claim now claim) (marked now stream_seq) rows,
)

-- Seconds until the next try.
unfoldable pub retry_delay : ℕ → ℕ
retry_delay attempts = min (2 ^ min attempts 8) 300

abbrev pub delayed : ℕ → ℕ → EventRow → EventRow
delayed now delay e = record e {
  next_attempt_at = now + delay * 1000;
  last_error = some "publish_failed";
  lease_token = none;
  lease_until = none;
}

unfoldable pub retry : ℕ → PublishClaim → List EventRow → Bool × List EventRow
unfolding retry_delay
retry now claim rows = (
  eqb (count_where (holds_claim now claim) rows) 1,
  update (holds_claim now claim) (delayed now (retry_delay claim.attempts)) rows,
)

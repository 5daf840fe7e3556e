-- ===== src/Requests/History.antt =====
-- How the requests and the journal of db/requests may change: an abstract machine of three steps, which
-- the handlers of server/nod-server/crates/nod-server/src/db/requests refine, and its histories.
pub mod Laws
pub mod Numbering
pub mod Steps
pub mod Creation
pub mod Calls
use nod.Base.{
  ℕ, ◌+◌, ◌≡◌, refl, ◌⊎◌, inl, inr, String, Bool, true, false, ◌&&◌, ◌||◌, Option, none, some, List,
  [], ◌∷◌, ◌++◌, ◌==◌, any, find, update, map, select, is_none, if◌then◌else◌, suc, zero,
}
use nod.Proto.Request.{is_pending}
use nod.Store.{RequestRow, EventRow, Db}
use nod.Lifecycle.{bump_revision}

-- The two tables.
pub record Journal : Type 0 where
  pub requests : List RequestRow
  pub events : List EventRow

abbrev pub journal_of : Db → Journal
journal_of db = record { requests = db.requests; events = db.events }

abbrev pub same_id : RequestRow → RequestRow → Bool
same_id a b = a.id == b.id

abbrev pub same_text : Option String → Option String → Bool
same_text (some a) (some b) = a == b
same_text _ _ = false

-- Both wait for an answer under one dedupe key of one channel.
abbrev pub same_pending_key : RequestRow → RequestRow → Bool
same_pending_key a b =
    is_pending a.status
    && is_pending b.status
    && (a.channel_id == b.channel_id)
    && same_text a.dedupe_key b.dedupe_key

-- Once settled, a request keeps its outcome.
pub record Keeps (before after : RequestRow) : Type 0 where
  pub id : after.id ≡ before.id
  pub settled :
      (is_pending before.status ≡ true)
      ⊎ ((after.status ≡ before.status)
          × (after.decision ≡ before.decision)
          × (after.resolved_at ≡ before.resolved_at))

-- What an `UPDATE` may do to a request.
pub record Touches (before after : RequestRow) : Type 0 where
  pub keeps : Keeps before after
  pub channel_id : after.channel_id ≡ before.channel_id
  pub dedupe_key : after.dedupe_key ≡ before.dedupe_key
  pub revision : after.revision ≡ before.revision

pub data Edit : Journal → Journal → Type 0 where
  insert :
      (j : Journal) (row : RequestRow)
      → row.revision ≡ 0
      → any (λ r. same_id row r || same_pending_key row r) j.requests ≡ false
      → Edit j (record j { requests = j.requests ++ row ∷ [] })
  touch :
      (j : Journal) (p : RequestRow → Bool) (f : RequestRow → RequestRow)
      → ((r : RequestRow) → Touches r (if p r then f r else r))
      → Edit j (record j { requests = update p f j.requests })
  log :
      (j : Journal) (id : String) (row : RequestRow) (e : EventRow)
      → find (λ r. r.id == id) j.requests ≡ some row
      → e.request_id ≡ id
      → e.revision ≡ row.revision + 1
      → Edit j (record { requests = bump_revision id j.requests; events = j.events ++ e ∷ [] })

pub data Edits : Journal → Journal → Type 0 where
  done : {j : Journal} → Edits j j
  step : {i j k : Journal} → Edit i j → Edits j k → Edits i k

pub Edits-trans : {i j k : Journal} → Edits i j → Edits j k → Edits i k
Edits-trans done e = e
Edits-trans (step s d) e = step s (Edits-trans d e)

-- 1, 2, …, n.
abbrev pub one_to : ℕ → List ℕ
one_to zero = []
one_to (suc n) = one_to n ++ suc n ∷ []

abbrev pub revisions_of : String → List EventRow → List ℕ
revisions_of id events = map (λ e. e.revision) (select (λ e. e.request_id == id) events)

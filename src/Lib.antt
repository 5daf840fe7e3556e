-- ===== src/Lib.antt =====
-- nod: a self-hosted service for decision requests. An issuer creates a request (a card with options) in a
-- channel; the server sends it to the devices of its recipients; a device answers with a signed decision;
-- the server records the decision, notes it in a journal, and delivers callbacks and published entries.
-- This development models the server's handling of requests and its three durable queues, the
-- enrollment and the deletion of devices, the texts that are hashed and signed, the offline check of a
-- decision's receipt, and the state that the clients keep of their requests.
--
-- Parts and files:
-- - nod-proto/src/answer.rs: Proto/Answer.antt (`validate`, `validate_value`, the decimal, date and instant
--   grammars), with the calendar in Proto/Answer/Calendar.antt.
-- - nod-proto/src/request.rs and decision.rs: Proto/Request.antt (the wire types and the stored words), with
--   Proto/Request/Words.antt.
-- - nod-proto/src/signing.rs and value_signing.rs: Proto/Signing.antt, Proto/Json.antt (canonical JSON) and
--   Proto/ValueSigning.antt, whose `signing_of` fills the interface that the server's handlers take;
--   Proto/Signing/Payload.antt and Proto/Signing/Keys.antt have the laws.
-- - nod-proto/src/receipt.rs: Proto/Receipt.antt, with Proto/Receipt/Facts.antt, Sound.antt and
--   Complete.antt. The
--   files of Requests/Receipt put the server's record of a decision before this check.
-- - nod-proto/src/preview.rs: Proto/Preview.antt.
-- - client/nod-client-core/src/models.rs: Client/Model.antt. state.rs beside it: Client/State.antt, Servers,
--   Pending, Visible, Snapshot and Updates; Client/Tracking.antt has the invariant of the reducer's
--   maps, and Client/Tracking/Calls.antt the histories of its calls.
-- - The tables of server/nod-server/crates/nod-server/src/db (schema.sql): Store.antt, one record to a row
--   and one list to a table. The paths below are relative to that crate's src.
-- - models/request.rs, models/device.rs: Model.antt. error.rs: Base/Outcome.antt.
-- - db/validation.rs and `validate_options`: Validation.antt, with Validation/Options.antt.
-- - db/lifecycle.rs: Lifecycle.antt (`Origin::validate`, `append_lifecycle_on`) and Delivery/Publish.antt
--   (the publisher's claims).
-- - db/requests/rows.rs and read.rs: Requests/Read.antt.
-- - db/requests/create.rs: Requests/Content.antt, Requests/Insert.antt and
--   Requests/Create.antt. The one long function of the code
--   is cut at its branches: `replay`, `join_pending`, `insert_new`.
-- - signing.rs: Requests/Signature.antt, with `verified_decision_signature` of db/requests/decisions.rs.
-- - db/requests/decisions.rs: Requests/Decide.antt; `admit` is every check before the signature.
--   Requests/Decide/Payload.antt says what a submission carries and chooses.
-- - db/requests/maintenance.rs: Requests/Maintain.antt.
-- - db/enrollment.rs: Directory/Enrollment.antt, with `get_user` of db/users.rs and the enrollment types of
--   models; Directory/Enrollment/Once.antt has the histories of its calls.
-- - db/devices.rs (the calls that change a device): Directory/Devices.antt, with Directory/Devices/Revocation.antt.
-- - db/push_deliveries.rs and db/callback_deliveries.rs: Delivery/Push.antt and Delivery/Callback.antt.
-- The handlers call each other as in the code: every change of a request ends in `append_lifecycle_on`,
-- which numbers the change and queues the callback that it owes. Requests/History.antt has an abstract
-- machine of three steps (insert, touch, log) that the four handlers refine; Requests/History/Calls.antt
-- has the histories of calls over which the invariants are stated, as Delivery has them for the queues.
--
-- How the code is modelled:
-- - A transaction is a function from the database to a `Result` with the next one. An error leaves the
--   database as it was (the rollback); begin and commit are not modelled. SQLite runs one writer at a
--   time, so concurrent handlers and workers are sequences of calls.
-- - The clock, new ids, lease tokens and random salts are arguments. A time is a number of
--   milliseconds (seconds for a push lease, as in the code).
-- - A `SELECT`, `UPDATE` or `INSERT` is `find`, `select`, `update` or `insert_row` on the list of rows;
--   `insert_row` refuses a row that clashes with a primary key or a unique index. Foreign keys are not
--   checked again, and columns of JSON text hold the value that they encode.
-- - Numbers are natural numbers, of a size that does not depend on the width of a word: the code's
--   counters are 64 bits wide and grow by one, and its times stay far below the bound.
-- - The loops are structural recursions on lists, so no fuel is used.
-- - Env.antt lists what the code takes from elsewhere, as parameters: URL and time parsing, the length of
--   encoded JSON, hashes, and the signing interface. Proto/Signing.antt has the same for nod-proto: sha2,
--   hex, serde_json, chrono, base64 and p256. Two properties have hypotheses on them: that hex digits hold
--   no line feed, and that base64 and p256 read back what they write and verify what they sign.
--
-- Not modelled: the handlers of users, channels and subscriptions and the views of devices, whose
-- tables the modelled handlers read; the lists of channels and devices in an enrollment's response; the
-- paged inbox; preferences and attestation but for their types; the HTTP layer and the network side of
-- the workers; of the clients, all but the state of their requests.
pub mod Base
pub mod Proto
pub mod Env
pub mod Store
pub mod Model
pub mod Validation
pub mod Lifecycle
pub mod Requests
pub mod Delivery
pub mod Directory
pub mod Client
mod Tests

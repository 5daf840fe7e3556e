-- ===== src/Delivery.antt =====
-- The three durable queues of server/nod-server/crates/nod-server/src/db: pushes to devices, callbacks
-- to issuers, and the journal's publication. A worker claims a row under a lease, works outside the
-- database, and reports back under the claim.
pub mod Push
pub mod Callback
pub mod Publish
pub mod Backoff

-- ===== src/Requests.antt =====
-- server/nod-server/crates/nod-server/src/db/requests.
pub mod Read
pub mod Content
pub mod Insert
pub mod Create
pub mod Signature
pub mod Receipt
pub mod Decide
pub mod Maintain
pub mod History

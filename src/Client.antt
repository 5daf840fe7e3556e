-- ===== src/Client.antt =====
-- client/nod-client-core/src: the state that the clients share.
pub mod Model
pub mod Pending
pub mod Visible
pub mod State
pub mod Servers
pub mod Snapshot
pub mod Updates
pub mod Counting
pub mod Tracking

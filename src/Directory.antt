-- ===== src/Directory.antt =====
-- server/nod-server/crates/nod-server/src/db: users and their devices.
pub mod Enrollment
pub mod Devices

-- ===== src/Tests.antt =====
-- Tests and worked examples: one run of every theorem at concrete inputs.
mod Data
mod Proto
mod Requests
mod Delivery
mod Client
mod Directory

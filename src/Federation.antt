-- ===== src/Federation.antt =====
-- src/federation: addresses, the signing client and the outbox worker.
pub mod Address
pub mod Client
pub mod Outbox

-- ===== src/Tests.antt =====
-- Two small nodes and what the theorems say of them.
pub mod Fixtures
mod Auth
mod Outbox
mod Messages
mod Mailbox
mod Accounts
mod Realtime
mod Devices
mod Enrolment
mod Routes
mod Senders
mod Sessions
mod Startup

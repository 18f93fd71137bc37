-- ===== src/Repository.antt =====
-- The SQL of src/repository, a module for each file.
pub mod Federation
pub mod Shadow
pub mod Messages
pub mod Sessions
pub mod Accounts
pub mod Chats
pub mod Enrollment

-- ===== src/Controllers.antt =====
-- src/controllers: the handlers, from the extracted arguments to the response.
pub mod Peers
pub mod Messages
pub mod Sessions
pub mod Accounts
pub mod Federation
pub mod Chats
pub mod Root

-- ===== src/Models.antt =====
-- The data model: the structs of src/models, as the handlers and the database exchange them.
mod Json
mod Account
mod Wire
mod Conversation
pub use Json.*
pub use Account.*
pub use Wire.*
pub use Conversation.*

-- ===== src/Store.antt =====
-- The world that a request runs in: the PostgreSQL tables, the outside, and the actions on them.
mod Tables
mod Outside
mod Action
mod Sql
pub mod Keeps
pub mod Fails
pub mod Runs
pub mod Forward
pub mod Inversion
pub use Tables.*
pub use Outside.*
unfoldable pub use Action.*
unfoldable pub use Sql.*

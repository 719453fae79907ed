-- ===== src/Local.antt =====
-- frontend/local_models, frontend/local_repositories and frontend/sql/local_init.sql: the SQLite
-- copy of the user's data, and the repositories over it.
pub mod Rows
pub mod Table
pub mod Db
pub mod Ids
pub mod Schema
pub mod Accounts
pub mod Boards
pub mod Statuses
pub mod Tasks
pub mod Users
pub mod Sessions
pub mod NewIds
pub mod TestData
mod Tests

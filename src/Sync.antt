-- ===== src/Sync.antt =====
-- frontend/sync: the managers that push local changes and store what the server sends, and the
-- coordinator over them.
pub mod Wire
pub mod Boards
pub mod Statuses
pub mod Tasks
pub mod Users
pub mod Sessions
pub mod Coordinator
mod Tests

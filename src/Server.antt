-- ===== src/Server.antt =====
-- The server behind its connection pool: its tables, repositories, handlers and routes.
pub mod Rows
pub mod Tables
pub mod Http
pub mod Action
pub mod Repositories
pub mod Handlers
pub mod Steps
pub mod Selections
pub mod Invariant
pub mod Isolation
pub mod Params
pub mod Listings
pub mod NameCache
pub mod NewBoard
pub mod Exceptions
pub mod Router
pub mod Requests
mod TestData
mod Tests

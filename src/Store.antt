-- ===== src/Store.antt =====
-- engine/src/store: session state in Redis, and the query log in PostgreSQL.
pub mod Session
pub mod Redis
pub mod Logs
pub mod Connections
pub mod Sample
mod Tests
mod LogTests

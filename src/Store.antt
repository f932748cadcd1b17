-- ===== src/Store.antt =====
-- The SQLite store of backend/internal/store: tokens, leases, sessions, accounts and the audit log.
pub mod Exec
pub mod ChatRows
pub mod Rows
pub mod Tokens
pub mod Leases
pub mod Chat
pub mod Sessions
pub mod Users
pub mod Audit
mod Tests

-- ===== src/Lifecycle.antt =====
-- The life cycle of the server (backend/internal/server/lifecycle.go).
pub mod Maintenance
pub mod Draining
mod Tests

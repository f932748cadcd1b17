-- ===== src/Transfers.antt =====
-- The transfer registry of backend/internal/server/transfers.go: upload permits (`Permits`), the
-- records of running and finished transfers (`Records`), and theorems on both.
pub mod Types
pub mod Permits
pub mod Records
pub mod Admission
pub mod Binding
pub mod Cancellation
pub mod History
pub mod Revocation
pub mod Retention
mod Tests

-- ===== src/Limiter.antt =====
-- The rate limiters of backend/internal/server/limiter.go and the login limiter's older methods in
-- backend/internal/server/server.go.
pub mod Window
pub mod Login
pub mod Capacity
pub mod Counting
pub mod Bound
pub mod Retry
pub mod Blocking
mod Tests

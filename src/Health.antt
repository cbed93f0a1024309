-- ===== src/Health.antt =====
-- The health monitoring of pkg/health.
pub mod Types
pub mod Engine
pub mod RateMarks
pub mod CheckErrors
pub mod Disks
pub mod Runner
pub mod Notify
pub mod Store
pub mod Memory

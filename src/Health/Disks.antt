-- ===== src/Health/Disks.antt =====
-- The reading of drives, pkg/health/check/disks.
pub mod Types
pub mod Log
pub mod Smart
pub mod SelfTest
pub mod Tests

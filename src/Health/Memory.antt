-- ===== src/Health/Memory.antt =====
-- The memory checks of pkg/health/check/memory.
pub mod Growth
pub mod Tests

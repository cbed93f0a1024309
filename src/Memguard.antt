-- ===== src/Memguard.antt =====
-- The memory guard's model, pkg/health/memguard: which services it may touch, their recent memory,
-- the culprit of a memory shortage, and the episode of one.
pub mod Types
pub mod Eligibility
pub mod Ring
pub mod Culprit
pub mod Guard
pub mod Records
pub mod Episode
pub mod Tests

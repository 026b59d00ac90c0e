-- ===== src/Process/Owned.antt =====
-- The allocations of a process.
pub mod Roundtrip

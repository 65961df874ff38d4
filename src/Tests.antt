-- ===== src/Tests.antt =====
-- Concrete tables, rounds and stores, and the theorems at work on them.
pub mod Queue
pub mod Schedule
pub mod Paths
pub mod Artifacts
pub mod Profiles
pub mod Retention
pub mod Rounds
pub mod Memory
pub mod Staff

-- ===== src/Profiles.antt =====
-- The configuration of backup profiles (src/application/profile_config.py) and how it is stored.
pub mod Timing
pub mod Compression

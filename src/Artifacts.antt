-- ===== src/Artifacts.antt =====
-- Artifacts of src/pipeline/finalize.py: the split into parts, the manifest, and what is verified before
-- a delivery.
pub mod Files
pub mod Split
pub mod Json
pub mod Verify
pub mod Finalize
pub mod Recover

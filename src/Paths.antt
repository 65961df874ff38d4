-- ===== src/Paths.antt =====
-- Paths of the control panel (src/application/profile_config.py): absolute paths as `PurePosixPath`
-- reads and writes them, and the mapping of local source paths.
--
-- A text is the list of its code points. `strip` is `str.strip`, a parameter.
pub mod Text
pub mod Mapper

-- ===== src/Tools.antt =====
-- The package tools.
pub mod Math
pub mod StringSet

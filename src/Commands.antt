-- ===== src/Commands.antt =====
-- The package commands.
pub mod Uploader
pub mod Prune
pub mod Fetch

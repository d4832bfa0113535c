-- ===== src/Transfer.antt =====
pub mod AdapterBase
pub mod Manifest

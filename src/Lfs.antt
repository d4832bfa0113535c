-- ===== src/Lfs.antt =====
-- The package lfs.
pub mod Setup
pub mod Attribute
pub mod Hook
pub mod Batcher
pub mod Pointer
pub mod Scanner
pub mod TransferQueue

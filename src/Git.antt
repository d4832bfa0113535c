-- ===== src/Git.antt =====
-- The package git: the pkt-line protocol and the filter-process protocol over it.
pub mod Version
pub mod Refs
pub mod Remotes
pub mod Pktline
pub mod PktlineReader
pub mod PktlineWriter
pub mod FilterProcess

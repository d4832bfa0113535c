-- ===== src/Config.antt =====
pub mod GitFetcher
pub mod Environment
pub mod Aliases
pub mod Endpoint
pub mod Extensions
pub mod Configuration

-- ===== src/Tests.antt =====
-- Runs of the definitions on small inputs, and the theorems on inputs where their conditions hold.
pub mod Storage
mod Pruning
mod Logs
mod Blobs
mod Trees
mod Configs
mod Installs
mod Workers
mod Repositories
mod Fetching
mod Wire
mod Process
mod Pointers
mod Faults
mod Settings
mod Queue
mod Adapters

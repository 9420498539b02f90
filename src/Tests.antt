-- ===== src/Tests.antt =====
-- Runs of the definitions and of the theorems on concrete inputs.
pub mod Wire
pub mod Paths
pub mod Sync
pub mod Serving
pub mod Members
pub mod Backup
pub mod Watching
pub mod Connecting
pub mod Folders

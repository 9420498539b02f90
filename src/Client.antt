-- ===== src/Client.antt =====
-- The client: its sync state, the three-way comparison, and what it does to the files.
pub mod SyncState
pub mod Decide
pub mod ConflictName
pub mod Install
pub mod Remote
pub mod Queue
pub mod Commands
pub mod Transact
pub mod Connect
pub mod Push
pub mod Reconcile
pub mod Watcher

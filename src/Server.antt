-- ===== src/Server.antt =====
-- The server: accounts, sessions, storage, replication and the requests of clients.
pub mod Sessions
pub mod Accounts
pub mod Storage
pub mod Cluster
pub mod Endpoint
pub mod Health
pub mod Front
pub mod Pushing
pub mod Manifest
pub mod ReplicaLink
pub mod Resync
pub mod Login
pub mod Incoming
pub mod Replication
pub mod Requests

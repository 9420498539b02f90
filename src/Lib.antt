-- ===== src/Lib.antt =====
-- A verification library for SisOp2, a file synchronization service: a client keeps a folder in sync
-- with a cluster of servers, of which one, the primary, serves the clients and replicates every
-- change to the backups. The C++ sources are common/, server/ and client/.
--
-- Parts, and the files that model them:
--  - Base: numbers, lists, ordered maps (std::map) and byte strings, shared by all.
--  - Protocol: common/protocol.cpp. A writer is a function on the buffer, a reader one on the rest of
--    the payload; `Carries` says that a reader undoes a writer.
--  - Connection: common/connection.cpp. What the socket delivers is a list of bytes.
--  - Files: common/files.cpp: names and paths (Names), file headers (Info), the content hash (Hash),
--    transfers (Transfer) and the file system (System), a record of calls with the documented
--    behaviour of POSIX as its laws. System/Memory is an instance of it.
--  - Server: server/. Sessions (sessions.cpp), Accounts (accounts.cpp, with PBKDF2 as a parameter),
--    Storage (storage.cpp), Cluster (the state of cluster.cpp under its mutex: joins in Ids, elections
--    in Election, links that fail in Links), Incoming (a received file and its commit), Replication
--    (put_on_link and the backup's end of it), Manifest (build_manifest's payload), Resync (the
--    comparison in attach_replica, as the calls that it makes), ReplicaLink (handle_replica_attach and apply_replicated, with the
--    other calls of the primary in Calls), Health (health.cpp and handle_status), Endpoint
--    (parse_endpoint of common/net.cpp), Front (handle_connection in server.cpp, and the handlers of cluster.cpp that it calls), Login (authenticate
--    and the login of serve_client in server.cpp), Requests (handle_request in server.cpp, with what a
--    handler sends as a list of effects, and the loop of serve_client in Requests/Loop) and Pushing
--    (serve_sync and the pushes of server.cpp, as the messages that each sync connection is sent).
--  - Client: client/. SyncState (sync_state.cpp), and of client.cpp Decide (the three-way comparison
--    of reconcile), ConflictName, Install and Reconcile, over Remote, the exchanges with the server;
--    Connect (connect_once, with send_redirect of server/server.cpp), Transact (transact and the
--    exchanges upload, download, remove_remote and list_remote, on what arrives), Push (handle_push),
--    Queue (enqueue and worker_loop), Commands (run_command) and Watcher (watcher.cpp: one event at a
--    time, with inotify's descriptors as a parameter).
--  - Tests: runs on concrete inputs.
--
-- Concurrency: a section under a mutex is one step. Where the code leaves a mutex and takes it again,
-- the sections are separate functions, and what others do between them is an argument. The loop over
-- a replica link takes the messages and the other threads' changes as one sequence of events; the
-- client's queue is reached by the steps of its two threads.
--
-- Fuel: remove_parents has the length of the path, of which each round cuts some; send_body has the
-- number of bytes left, of which each round sends one or more; drop_links has the number of links,
-- of which each broadcast has one less; find_free, the loop of conflict_name,
-- has as much as the caller gives, which is enough as soon as it exceeds the number of names taken;
-- to_string has the number itself; connect_once has the 20 attempts of the source.
--
-- Not modelled: sockets, TLS, time (the monitor's timeouts, heartbeats, the reminders of the health
-- monitor), threads, logs, inotify itself, the programs' command lines, the walk through a
-- folder (list_tree), the files behind SyncState, the client's reconnection and its supervisor, and
-- the bodies of its commands.
pub mod Base
pub mod Protocol
pub mod Connection
pub mod Files
pub mod Server
pub mod Client
pub mod Tests

-- ===== src/Files.antt =====
-- common/files.hpp and common/files.cpp: names and paths, file headers, content hashes, the
-- transfer of a file over a connection, and the calls that change the file system.
pub mod Info
pub mod Names
pub mod Hash
pub mod Transfer
pub mod System

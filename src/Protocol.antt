-- ===== src/Protocol.antt =====
-- common/protocol.hpp and common/protocol.cpp: message types, the payload fields that Writer and
-- Reader exchange, and server addresses. A byte is a number below 256, a string a list of bytes.
pub mod Msg
pub mod Writer
pub mod Reader
pub mod Carries
pub mod Address
pub mod Names
pub mod Decimal

-- ===== src/DbProxy.antt =====
-- src-server/src/db_proxy/mod.rs: the MySQL proxy for the PHP workers of this machine.
pub mod Packet
pub mod Rows
pub mod Params
pub mod Substitute
pub mod Session
pub mod Listener

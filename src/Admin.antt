-- ===== src/Admin.antt =====
-- src/admin/mod.rs: the client of the admin text protocol.
pub mod Lines
pub mod Rows
pub mod Commands
mod Tests

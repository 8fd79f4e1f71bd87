-- ===== src/Store.antt =====
-- src/db.rs: the tables and the statements on them.
pub mod Table
pub mod Db
pub mod Notifications
pub mod Registers
pub mod Grants
pub mod Guarded

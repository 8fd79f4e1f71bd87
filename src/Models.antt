-- ===== src/Models.antt =====
-- src/models.rs: the data that the daemon stores and sends, and the parsing of its durations.
pub mod Enums
pub mod Data
pub mod Duration
pub mod Resolve
pub mod Agents

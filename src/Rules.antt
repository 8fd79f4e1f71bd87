-- ===== src/Rules.antt =====
-- src/rules.rs: the evaluation of the user's rules against a new notification.
pub mod Match
pub mod Evaluate

-- ===== src/Triage.antt =====
-- src/triage/: the review queues of captured items, their import and their reconciliation.
pub mod Data
pub mod Glob
pub mod Paths
pub mod Observations
pub mod Patterns
pub mod Reconcile
pub mod Store
pub mod Http

-- ===== src/Tests.antt =====
-- Concrete inputs for the theorems on the daemon's code.
pub mod Samples
pub mod Signed
mod ModelRuns
mod GrantRuns
mod RuleRuns
mod ServerRuns
mod ClaimRuns
mod TriageRuns
mod QueueRuns

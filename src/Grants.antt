-- ===== src/Grants.antt =====
-- src/grants.rs: verified transient-authority grants. `Records` has the data, `Errors` the
-- refusals, `Verify` the checks of an envelope, `Answer` what a grant does to its ask, `Stored`
-- the rows of the grants table.
pub mod Errors
pub mod Records
pub mod Verify
pub mod Answer
pub mod Stored

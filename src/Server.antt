-- ===== src/Server.antt =====
-- src/handlers.rs and src/grant_handlers.rs: the HTTP handlers of the daemon, each as a function of
-- the shared state, the request and the time.
pub mod App
pub mod Close
pub mod Wait
pub mod Grants
pub mod Draft
pub mod Ask
pub mod Steps

-- ===== src/Client.antt =====
-- The client `ncap` (src/client/mod.rs): the request's environment, the child's status as an exit
-- code, and the session loop.
pub mod Errors
pub mod Env
pub mod Status
pub mod Session

-- ===== src/Server.antt =====
-- The server `ncap-server` (src/server.rs): its run, its log, its startup probe, and one connection.
pub mod LogLevel
pub mod Startup
pub mod Clock
pub mod Serve
pub mod Rejection
pub mod Connection

-- ===== src/Ctl.antt =====
-- src/ctl: the host-side control program.
pub mod Shell
pub mod Expand
pub mod Paths
pub mod Layout
pub mod Config
pub mod Stamp
pub mod Digest
pub mod Machine
pub mod Runtime
pub mod Nix
pub mod Errors
pub mod Arguments
pub mod Version
pub mod Flows
pub mod Clean
pub mod Cli
pub mod Logs
pub mod Reports
pub mod Commands

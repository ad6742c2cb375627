-- ===== src/Server/Connection.antt =====
-- One connection of src/server.rs, from its first frame to its end. The host is a record of what each
-- call of it answers; each `tokio::select!` is a list of events.
pub mod State
pub mod Loop
pub mod Handler
pub mod Ending
pub mod Handled
pub mod Reaped
pub mod Children
pub mod Reached
pub mod Produced
pub mod Pump
pub mod Relayed
pub mod Told
pub mod Fed
pub mod Signalled

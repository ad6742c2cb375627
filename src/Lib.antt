-- ===== src/Lib.antt =====
-- A model of nix-capsule: a client on the host (`ncap`) runs commands in a container through a server
-- (`ncap-server`), and a control program (`ncap-ctl`) sets the container up.
--
-- The client builds a request from its command line and environment, sends it over a Unix socket, and
-- relays stdin and signals to the server and the child's output and status back. The server takes one
-- request on a connection, starts the child in its own process group, and bridges the two until a terminal
-- frame. Both speak the framed protocol of src/protocol.rs. The control program resolves its configuration
-- from the environment, prints the variables for the host shell, and finds and follows the server's logs.
--
-- Files, and the code they are about (paths from the root of the repository):
--   Prelude, Prelude/*: helpers on tests, lists, results, text and decimal numbers (`str::parse::<u64>`).
--   Protocol/FrameType, Codec, Message, Errors: src/protocol.rs, `FrameType`, `FrameCodec`, `Message`
--     (`into_frame`, `from_frame`) and the error types. Below them, Codec/RoundTrip, Codec/Streaming and
--     Message/RoundTrip hold proofs; Codec/Stream repeats `decode` on a buffer.
--   Client/Env, Status, Session, Errors: src/client/mod.rs, `build_request` and `build_env`,
--     `exit_outcome`, `session` with its loop and `run`, `ClientError`. Client/Session/Stdin also has
--     `pump_stdin`; Relay, Typing and Signals hold proofs. Protocol/Message/Typed and Signalled are the
--     stdin and the signals that messages carry.
--   Server/LogLevel, Rejection, Startup: src/server.rs, `LogLevel` and `Log`, `Rejection`, `probe_socket`.
--     Server/Clock: `format_utc`, with its proofs in Clock/Civil. Server/Serve: `run`, `accept_loop` and
--     `Log::start`, with the proofs in Serve/Awaited.
--   Server/Connection/State, Loop, Handler: src/server.rs, the connection's state and its sends, `bridge`,
--     and `handle_conn`; Pump has `pump_output`, with what the bridge takes of it. Ending, Handled and
--     Reaped hold proofs, Reached how it came to its end, Children what became of its child, Produced,
--     Relayed and Told what the client is sent of the child, Fed what the child's stdin is given, and
--     Signalled the signals that its group is sent.
--   Contract: client and server together. Contract/Request is about the command line on its way to the
--     spawn, Contract/Input about stdin, Contract/Signals about SIGINT and SIGTERM, and Contract/Output
--     about the output and the status on their way back.
--   Ctl/Config, with Resolve, SetupEnv, Sanitize: src/ctl/config.rs. Readings, Demands and Sourced hold
--     proofs.
--   Ctl/Layout, Ctl/Paths: src/ctl/paths.rs, the directories and the log files, and `attachments_after` of
--     src/ctl/mod.rs, with proofs in CaughtUp. Ctl/Shell: src/ctl/shell.rs. Ctl/Stamp: src/ctl/stamp.rs.
--   Ctl/Expand: `expand_with` of src/ctl/mod.rs, with the proofs in Expand/Pieces and Expand/Print.
--   Ctl/Digest: src/ctl/digest.rs, with proofs in Sorted and Fresh. Ctl/Runtime, Ctl/Nix:
--     src/ctl/runtime.rs and src/ctl/nix.rs; Runtime/Launch has a reader of bash's words. Ctl/Version:
--     src/ctl/version.rs. Ctl/Errors: `CtlError`, and src/ctl/fs_error.rs.
--   Ctl/Machine: the host that the commands work on, and the programs over it; Machine/Logic has their
--     rules.
--   Ctl/Arguments: `build_runtime_args` of src/ctl/mod.rs, with proofs in Failing and Mounts; Volumes
--     reads options as the container runtime does. Ctl/Flows: `init`, `start`, `stop` (`stop_flow`),
--     `restart`, `enter`, `ensure_cache` and `start_inner` of src/ctl/mod.rs, with proofs in Evidence,
--     Waiting, Ending, Cached, Own and Starting. Ctl/Clean: `clean` and its helpers, with proofs in Names
--     and Own. Ctl/Logs: `log`, `follow_log` and `drain_log`, with proofs in Drained and Followed.
--     Ctl/Reports: `status`, `show_options` and `fail`. Ctl/Cli, Ctl/Commands: `Cmd` of src/ctl/cli.rs and
--     `run` of src/ctl/mod.rs.
--   Runs: the models at concrete inputs, with small concrete functions for the parameters.
--
-- State and time. `tokio::select!` loops are functions of a list of events, one for each branch that
-- completes, so a theorem over all lists holds for every interleaving. What the operating system or a
-- library answers is a parameter: `Json` (serde_json), `Terminal` and `Process` on the client, `Host` on
-- the server, `Shell` and `Dirs` for the configuration. The commands of the control program are functions
-- from the list of calls made so far to a result and a longer list; a `Machine` answers each call as a
-- function of that list, so that an answer may change by any call that was made before it, and is taken to
-- answer at some time; the program of a call is the one that the configuration names, and only its
-- arguments are kept. Reads of files are not calls: the files change by calls only, and a wait is a call.
-- A parameter is assumed to do something only where a theorem names it: `JsonReadsBack` says that
-- serde_json reads back what it wrote, `Paces` that the clock is not turned back and a sleep takes its
-- time, `Stores` that files keep what is written to them, for a numbering of the files that sees through
-- links and other spellings of a path, and `Settled` that a log does not change while it is read.
--
-- Numbers are unbounded; the u32 length of a frame is reduced modulo 2 ^ 32 when it is written, status
-- numbers modulo 256, and `parse_u64` fails above 2 ^ 64 - 1. Text is a list of code points, and the
-- model's strings are valid Unicode. Fuel: `digits` has one unit more than its number, `expand_loop` one
-- for each character, since each turn takes one at least, `read_frames` one round more than there are
-- bytes, and `wait_live` ten rounds for each second of the deadline and one more, since a round sleeps for
-- a tenth of a second. The reads of one `drain_log` are on fuel that the caller gives; more than the bytes
-- that are left is enough for a log that stays as it is. A command that runs out of fuel gives the error
-- `stuck`. The clock has a last instant, and a deadline behind it gives `panicked`.
--
-- The server's `run` is a list of actions: arrivals that come before the signal are accepted before it,
-- and the connections run beside it, so that all it sees of one is when it ends.
--
-- A write of the server that blocks for ever is a list of events that ends there, and a wait for the child
-- that never answers is a `Schedule` without an answer, with which the handler does not return.
--
-- Not modelled: the panic of `println!` on a stdout that is gone; the text of `CtlError`, which a macro
-- derives; command line parsing, which is a library's.
pub mod Prelude
pub mod Protocol
pub mod Client
pub mod Server
pub mod Contract
pub mod Ctl
pub mod Runs

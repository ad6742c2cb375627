-- ===== src/Server/Startup.antt =====
-- `probe_socket` of src/server.rs, over what the calls for the socket's path answer.
use nix_capsule.Prelude.{Result, ok, err, Str, Bool, true, false, Option, none, some}
use nix_capsule.Prelude.Io.{IoError}

pub data StartupError : Type 0 where
  socket_in_use : Str → StartupError
  create_dir unopened remove bind signal_handler : Str → IoError → StartupError

-- `removal` is what `remove_file` answers.
abbrev removed : Str → Option IoError → Result StartupError (Unit {0})
removed socket none = ok tt
removed socket (some e) = err (remove socket e)

-- `there` is what `Path::exists` answers, and `connects` whether `connect` succeeded; whichever error it
-- failed with, the file is removed. With the result comes whether `remove_file` was called.
unfoldable pub probe_socket :
    (socket : Str) (there connects : Bool) → Option IoError → Result StartupError (Unit {0}) × Bool
probe_socket socket false connects removal = (ok tt, false)
probe_socket socket true true removal = (err (socket_in_use socket), false)
probe_socket socket true false removal = (removed socket removal, true)

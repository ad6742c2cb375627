-- ===== src/Runs/Toy.antt =====
-- Parameters of the models as concrete functions: a small codec in the place of `serde_json`, a terminal
-- that takes everything, a process and a host.
use nix_capsule.Prelude.{
  if◌then◌else◌, Result, ok, err, ok-injective, Bytes, Str, codes, str_eq, ℕ, ◌≡◌, refl, true,
  Option, none, some, List, [], ◌∷◌,
}
use nix_capsule.Protocol.Message.{Request, Exit, SignalMsg, Json, JsonReadsBack}
use nix_capsule.Client.Session.{Terminal}
use nix_capsule.Client.Env.{Process}
use nix_capsule.Server.Connection.State.{Host}

-- It writes only a request that is a command and nothing else.
abbrev only_command : Str → List Str → Str → List Str → Result Str Bytes
only_command command [] [] [] = ok command
only_command command args cwd env = err []

abbrev write_request : Request → Result Str Bytes
write_request r = only_command r.command r.args r.cwd r.env

abbrev read_request : Bytes → Result Str Request
read_request b = ok (record { command = b; args = []; cwd = []; env = [] })

abbrev write_status : Option ℕ → Option ℕ → Bytes
write_status none none = []
write_status (some c) none = c ∷ []
write_status none (some n) = n ∷ 0 ∷ []
write_status (some c) (some n) = c ∷ n ∷ 0 ∷ []

abbrev write_exit : Exit → Result Str Bytes
write_exit e = ok (write_status e.code e.signal)

abbrev read_exit : Bytes → Result Str Exit
read_exit [] = ok (record { code = none; signal = none })
read_exit (c ∷ []) = ok (record { code = some c; signal = none })
read_exit (n ∷ z ∷ []) = ok (record { code = none; signal = some n })
read_exit (c ∷ n ∷ b) = ok (record { code = some c; signal = some n })

abbrev read_signal : Bytes → Result Str SignalMsg
read_signal [] = err []
read_signal (n ∷ b) = ok (record { signal = n })

abbrev pub json : Json
json = record {
  request = record { to_vec = write_request; from_slice = read_request };
  exit = record { to_vec = write_exit; from_slice = read_exit };
  error = record { to_vec = λ m. ok m.message; from_slice = λ b. ok (record { message = b }) };
  version = record { to_vec = λ m. ok m.version; from_slice = λ b. ok (record { version = b }) };
  signal = record { to_vec = λ m. ok (m.signal ∷ []); from_slice = read_signal };
}

only_command-read :
    (command : Str) (args : List Str) (cwd : Str) (env : List Str) (b : Bytes)
    → only_command command args cwd env ≡ ok b
    → read_request b ≡ ok (record { command = command; args = args; cwd = cwd; env = env })
only_command-read c [] [] [] b e = rw (ok-injective e)
only_command-read c (x ∷ xs) d v b e = cc
only_command-read c [] (x ∷ xs) v b e = cc
only_command-read c [] [] (x ∷ xs) b e = cc

write_status-read :
    (code signal : Option ℕ)
    → read_exit (write_status code signal) ≡ ok (record { code = code; signal = signal })
write_status-read none none = refl
write_status-read (some c) none = refl
write_status-read none (some n) = refl
write_status-read (some c) (some n) = refl

pub json-ReadsBack : JsonReadsBack json
json-ReadsBack = record {
  request = λ a b e. only_command-read a.command a.args a.cwd a.env b e;
  exit = λ a b e. rw (← ok-injective e) (write_status-read a.code a.signal);
  error = λ a b e. rw (← ok-injective e) refl;
  version = λ a b e. rw (← ok-injective e) refl;
  signal = λ a b e. rw (← ok-injective e) refl;
}

abbrev pub terminal : Terminal
terminal = record {
  socket = λ sent m. none;
  write_stdout = λ before b. none;
  write_stderr = λ before b. none;
}

-- Only `A` is set.
abbrev var_a : Str → Option Bytes
var_a name = if str_eq name (codes "A") then some (codes "1") else none

abbrev pub process : Process
process = record {
  to_string_lossy = λ s. s;
  names_of_json = λ raw. ok (raw ∷ []);
  var_os = var_a;
  working_dir = ok (codes "/w");
}

-- Every directory is there, every write succeeds, and a spawned child has pid 7.
abbrev pub host : Host
host = record {
  is_dir = λ path. true;
  spawn = λ s. ok 7;
  socket = λ sent m. true;
  write_stdin = λ before b. true;
  kill = λ kills pgid signal. none;
}

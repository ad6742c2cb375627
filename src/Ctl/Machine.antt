-- ===== src/Ctl/Machine.antt =====
-- The host machine that the control program of src/ctl works on, and the programs over it. What was done
-- so far is a list of calls, the last one first, and every answer is a function of that list.
pub mod Logic
use nix_capsule.Protocol.Codec.{Frame}
use nix_capsule.Protocol.Message.{Json}
use nix_capsule.Ctl.Digest.{Files}
use nix_capsule.Prelude.Io.{IoError}
use nix_capsule.Prelude.{
  Result, ok, err, map_err, Bytes, Str, ℕ, Bool, Option, none, some, List, ◌∷◌,
}

-- `std::process::Output` with its text decoded, which is how all callers read it.
pub record Output : Type 0 where
  pub success : Bool
  pub stdout : Str
  pub stderr : Str

-- A call that may change something, or whose answer may change by itself: a command of the container
-- runtime or of nix with its arguments (the program is the one of the configuration), a terminal handed to a command or a pager, a connection, a change of the
-- files or of a directory's permissions (to 0700), a pause, a line on stderr, and a write to stdout.
pub data Call : Type 0 where
  engine : List Str → Call
  interactive : List Str → Call
  nix : List Str → Call
  pager : Str → List Str → Call
  connect : Str → Call
  version_probe : Str → Call
  create_dir : Str → Call
  set_private : Str → Call
  write : Str → Bytes → Call
  remove_file : Str → Call
  remove_dir : Str → Call
  remove_tree : Str → Call
  pause : Call
  notice : Str → Call
  print : Bytes → Call

-- The answers. `opens` says whether a file can be opened, `read_at` what one read of an open file gives at a
-- position that was sought before, `stdout` what a write to stdout and its flush give, `read_dir` the names in a directory in the order
-- of the iteration, `symlink_is_dir` whether `symlink_metadata` calls a path a directory, `is_real_dir` is true of a directory that is no
-- symbolic link, `version_reply` is the frame that a version probe gets within its time, if it gets one,
-- and `now` is the monotonic clock in milliseconds, which has no instant behind `last_instant`. The last four do not change: the environment, the hash
-- of the digest, the JSON library, and `CURRENT_VERSION`.
pub record Machine : Type 0 where
  pub engine : List Call → List Str → Result IoError Output
  pub interactive : List Call → List Str → Result IoError Bool
  pub nix : List Call → List Str → Result IoError (Bool × Bytes)
  pub pager : List Call → Str → List Str → Result IoError Bool
  pub connect : List Call → Str → Bool
  pub files : List Call → Files
  pub create_dir : List Call → Str → Option IoError
  pub set_private : List Call → Str → Option IoError
  pub write : List Call → Str → Bytes → Option IoError
  pub remove_file : List Call → Str → Option IoError
  pub remove_tree : List Call → Str → Option IoError
  pub remove_dir : List Call → Str → Option IoError
  pub opens : List Call → Str → Option IoError
  pub read_at : List Call → Str → ℕ → Result IoError Bytes
  pub stdout : List Call → Bytes → Option IoError
  pub exists : List Call → Str → Bool
  pub read_dir : List Call → Str → Result IoError (List (Result IoError Str))
  pub symlink_is_dir : List Call → Str → Result IoError Bool
  pub is_real_dir : List Call → Str → Bool
  pub version_reply : List Call → Str → Option Frame
  pub lookup : Str → Option Str
  pub hash : Bytes → ℕ
  pub json : Json
  pub version : Str
  pub now : List Call → ℕ
  pub last_instant : ℕ

-- A program: its result and the calls made, from the calls made before it.
abbrev pub Program : Type 0 → Type 0 → Type 0
Program E A = List Call → Result E A × List Call

module _ {E A : Type 0} where
  abbrev pub return : A → Program E A
  return a h = (ok a, h)

  abbrev pub throw : E → Program E A
  throw e h = (err e, h)

module _ {E A B : Type 0} where
  abbrev pub continue_with : (A → Program E B) → Result E A × List Call → Result E B × List Call
  continue_with f (ok a, h) = f a h
  continue_with f (err e, h) = (err e, h)

  infixl 5 ◌>>=◌
  infixr 4 ◌>>◌
  abbrev pub ◌>>=◌ : Program E A → (A → Program E B) → Program E B
  ◌>>=◌ m f h = continue_with f (m h)

  abbrev pub ◌>>◌ : Program E A → Program E B → Program E B
  m >> k = m >>= λ _. k

-- `let _ = …`: the result is dropped, the calls are not.
abbrev pub ignore : {D E A : Type 0} → Program D A → Program E (Unit {0})
ignore m h = (ok tt, (m h).1)

-- An error is wrapped, as `?` and `map_err` do.
abbrev pub wrapped : {D E A : Type 0} → (D → E) → Program D A → Program E A
wrapped f m h = (map_err f (m h).0, (m h).1)

-- A call that may fail, with its error.
abbrev pub attempt :
    {E : Type 0}
    → (IoError → E)
    → Call
    → Option IoError
    → List Call
    → Result E (Unit {0}) × List Call
attempt f c none h = (ok tt, c ∷ h)
attempt f c (some e) h = (err (f e), c ∷ h)

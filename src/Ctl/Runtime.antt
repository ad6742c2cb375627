-- ===== src/Ctl/Runtime.antt =====
-- The container runtime's adapter, src/ctl/runtime.rs, over a machine.
use nix_capsule.Ctl.Machine.{Output, Call, Machine, Program, ◌>>=◌}
use nix_capsule.Ctl.Layout.{cache_dir, env_file}
use nix_capsule.Ctl.Shell.{quoted}
use nix_capsule.Prelude.Chars.{trim}
use nix_capsule.Prelude.Decimal.{to_decimal}
use nix_capsule.Prelude.Io.{IoError}
use nix_capsule.Prelude.{
  leb, ◌==◌, if◌then◌else◌, Result, ok, err, Str, codes, str_eq, is_empty, ℕ, ◌+◌, Bool, true,
  false, ◌&&◌, ◌||◌, List, [], ◌∷◌, ◌++◌, map,
}
use nix_capsule.Server.LogLevel.{LogLevel, as_str}
pub mod Launch

pub data RuntimeError : Type 0 where
  spawn : Str → Str → IoError → RuntimeError
  failed : Str → Str → Str → RuntimeError
  exec_failed : Str → RuntimeError
  not_live : Str → ℕ → Str → RuntimeError

pub record ServerArgs : Type 0 where
  pub socket : Str
  pub log_dir : Str
  pub timeout : ℕ
  pub level : LogLevel

-- The adapter: the runtime's program, the container, and bash.
pub record Runtime : Type 0 where
  pub bin : Str
  pub name : Str
  pub bash : Str

-- stderr, or stdout where stderr is blank.
unfoldable pub captured_output : Output → Str
captured_output o = if is_empty (trim o.stderr) then trim o.stdout else trim o.stderr

abbrev lower : ℕ → ℕ
lower c = if leb b'A' c && leb c b'Z' then c + 32 else c

abbrev starts_with : Str → Str → Bool
starts_with [] s = true
starts_with (c ∷ p) [] = false
starts_with (c ∷ p) (d ∷ s) = c == d && starts_with p s

unfoldable pub contains : Str → Str → Bool
contains p [] = is_empty p
contains p (c ∷ s) = let later = contains p s in starts_with p (c ∷ s) || later

unfoldable pub is_name_in_use : Str → Bool
is_name_in_use stderr =
    contains (codes "already in use") (map lower stderr)
    || contains (codes "name in use") (map lower stderr)

-- `source '…' && exec '…' --socket '…' --log-dir '…' --timeout … --log-level …`
unfoldable pub launch_command : Str → Str → ServerArgs → Str
launch_command env server args =
    codes "source "
    ++ (quoted env
        ++ (codes " && exec "
            ++ (quoted server
                ++ (codes " --socket "
                    ++ (quoted args.socket
                        ++ (codes " --log-dir "
                            ++ (quoted args.log_dir
                                ++ (codes " --timeout "
                                    ++ (to_decimal args.timeout
                                        ++ (codes " --log-level " ++ as_str args.level))))))))))

module _ (m : Machine) (rt : Runtime) where
  abbrev says_true : Result IoError Output → Bool
  says_true (ok o) = str_eq (trim o.stdout) (codes "true")
  says_true (err e) = false

  abbrev pub running_args : List Str
  running_args = codes "inspect" ∷ codes "-f" ∷ codes "{{.State.Running}}" ∷ rt.name ∷ []

  -- What `inspect` answers after the calls, read as `is_running` reads it.
  abbrev pub seen_running : List Call → Bool
  seen_running h = says_true (m.engine h running_args)

  unfoldable pub is_running : {E : Type 0} → Program E Bool
  is_running h = (ok (seen_running h), Call.engine running_args ∷ h)

  abbrev pub connected : {E : Type 0} → Str → Bool → Program E Bool
  connected socket false h = (ok false, h)
  connected socket true h = (ok (m.connect h socket), Call.connect socket ∷ h)

  unfoldable pub is_live : {E : Type 0} → Str → Program E Bool
  unfolding is_running
  is_live socket = is_running >>= connected socket

  abbrev state_text : Result IoError Output → Str
  state_text (ok o) = if o.success then trim o.stdout else trim o.stderr
  state_text (err e) = e.text

  abbrev state_args : List Str
  state_args = codes "inspect" ∷ codes "-f" ∷ codes "{{json .State}}" ∷ rt.name ∷ []

  unfoldable pub inspect_state : {E : Type 0} → Program E Str
  inspect_state h = (ok (state_text (m.engine h state_args)), Call.engine state_args ∷ h)

  abbrev checked : Str → Result IoError Output → Result RuntimeError Str
  checked verb (err e) = err (RuntimeError.spawn rt.bin verb e)
  checked verb (ok o) =
      if o.success
      then ok (trim o.stdout)
      else err (RuntimeError.failed rt.bin verb (captured_output o))

  unfoldable pub run_checked : Str → List Str → Program RuntimeError Str
  run_checked verb args h = (checked verb (m.engine h (verb ∷ args)), Call.engine (verb ∷ args) ∷ h)

  abbrev pub run_args : Str → Str → Str → ServerArgs → List Str → List Str
  run_args image env server args extra_args =
      codes "-d"
      ∷ codes "--name"
      ∷ rt.name
      ∷ (extra_args
          ++ codes "--" ∷ image ∷ rt.bash ∷ codes "-c" ∷ launch_command env server args ∷ [])

  unfoldable pub run_detached : Str → Str → Str → ServerArgs → List Str → Program RuntimeError Str
  unfolding run_checked
  run_detached image env server args extra_args =
      run_checked (codes "run") (run_args image env server args extra_args)

  unfoldable pub stop : Program RuntimeError Str
  unfolding run_checked
  stop = run_checked (codes "stop") (rt.name ∷ [])

  abbrev succeeded : Result IoError Output → Bool
  succeeded (ok o) = o.success
  succeeded (err e) = false

  unfoldable pub exists : {E : Type 0} → Program E Bool
  exists h = (
    ok (succeeded (m.engine h (codes "inspect" ∷ rt.name ∷ []))),
    Call.engine (codes "inspect" ∷ rt.name ∷ []) ∷ h,
  )

  unfoldable pub remove : Program RuntimeError Str
  unfolding run_checked
  remove = run_checked (codes "rm") (rt.name ∷ [])

  abbrev exec_args : Str → List Str
  exec_args cache_dir =
      codes "exec"
      ∷ codes "-it"
      ∷ rt.name
      ∷ rt.bash
      ∷ codes "-c"
      ∷ (codes "source " ++ (quoted (env_file cache_dir) ++ (codes " && exec " ++ quoted rt.bash)))
      ∷ []

  abbrev exec_result : Result IoError Bool → Result RuntimeError (Unit {0})
  exec_result (err e) = err (RuntimeError.spawn rt.bin (codes "exec") e)
  exec_result (ok false) = err (RuntimeError.exec_failed rt.bin)
  exec_result (ok true) = ok tt

  unfoldable pub exec_interactive : Str → Program RuntimeError (Unit {0})
  exec_interactive cache_dir h = (
    exec_result (m.interactive h (exec_args cache_dir)),
    Call.interactive (exec_args cache_dir) ∷ h,
  )

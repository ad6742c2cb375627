-- ===== src/Ctl/Logs.antt =====
-- `log` of src/ctl/mod.rs: the newest server log printed, paged or followed, over a machine.
pub mod Drained
pub mod Followed
use nix_capsule.Ctl.Cli.{LogFlags}
use nix_capsule.Ctl.Machine.{Call, Machine, Program, return, throw, ◌>>=◌, ◌>>◌, wrapped, attempt}
use nix_capsule.Ctl.Errors.{PrintLogError, CtlError}
use nix_capsule.Ctl.Config.{Config}
use nix_capsule.Ctl.Layout.{join, log_dir}
use nix_capsule.Ctl.Paths.{ServerLog, sorted_server_logs, attachments_after}
use nix_capsule.Ctl.Config.SetupEnv.{file_name}
use nix_capsule.Prelude.Io.{ErrorKind, not_found, IoError}
use nix_capsule.Prelude.Chars.{as_bytes, is_whitespace}
use nix_capsule.Prelude.{
  if◌then◌else◌, length, Result, ok, err, Bytes, Str, codes, ℕ, zero, suc, ◌+◌, Bool, true, false,
  Option, none, some, List, [], ◌∷◌, ◌++◌,
}

-- `str::split_whitespace`, with the word that has begun.
abbrev word_then : Str → List Str → List Str
word_then [] words = words
word_then (c ∷ word) words = (c ∷ word) ∷ words

split_from : Str → Str → List Str
split_from word [] = word_then word []
split_from word (c ∷ s) = elim (is_whitespace c) [
  | true ↦ word_then word (split_from [] s)
  | false ↦ split_from (word ++ c ∷ []) s
]

abbrev pager_of : List Str → Str × List Str
pager_of [] = (codes "less", codes "-R" ∷ [])
pager_of (prog ∷ args) = (prog, args)

abbrev words_of : Option Str → List Str
unfolding split_from
words_of none = []
words_of (some text) = split_from [] text

unfoldable pub pager_command : (Str → Option Str) → Str × List Str
unfolding words_of
pager_command lookup = pager_of (words_of (lookup (codes "PAGER")))

abbrev pub names : List (Result IoError Str) → List Str
names [] = []
names (ok name ∷ entries) = name ∷ names entries
names (err e ∷ entries) = names entries

abbrev pub listing : Result IoError (List (Result IoError Str)) → Option (List Str)
listing (ok entries) = some (names entries)
listing (err e) = none

-- `scan.pop()`
abbrev newest : List ServerLog → Option ServerLog
newest [] = none
newest (x ∷ []) = some x
newest (x ∷ y ∷ logs) = newest (y ∷ logs)

-- What wakes the follow loop: the pause is over, or Ctrl-C.
pub data Poll : Type 0 where
  tick ctrl_c : Poll

-- How printing to stdout ended: every byte was taken, or the reader was gone.
pub data PrintEnd : Type 0 where
  whole broken_pipe : PrintEnd

module _ (m : Machine) where
  abbrev broken : ErrorKind → IoError → Result PrintLogError PrintEnd
  broken ErrorKind.broken_pipe e = ok PrintEnd.broken_pipe
  broken _ e = err (PrintLogError.write e)

  abbrev print_end : Option IoError → Result PrintLogError PrintEnd
  print_end none = ok PrintEnd.whole
  print_end (some e) = broken e.kind e

  -- A broken pipe is a quiet success.
  abbrev pub write_stdout : Bytes → Program PrintLogError PrintEnd
  write_stdout bytes h = (print_end (m.stdout h bytes), Call.print bytes ∷ h)

  abbrev pub write_stdout_strict : Bytes → Program CtlError (Unit {0})
  write_stdout_strict bytes h =
      attempt (λ e. CtlError.print (PrintLogError.write e)) (Call.print bytes) (m.stdout h bytes) h

  abbrev write_read : Str → Result IoError Bytes → Program PrintLogError PrintEnd
  write_read path (err e) = throw (PrintLogError.read path e)
  write_read path (ok bytes) = write_stdout bytes

  unfoldable pub print_log_whole : Str → Program PrintLogError PrintEnd
  print_log_whole path h = write_read path ((m.files h).read path) h

  unfoldable pub announce_attach : Str → Program CtlError (Unit {0})
  announce_attach path =
      write_stdout_strict (as_bytes (codes "==> following " ++ (file_name path ++ codes " <==\n")))

  -- One read of the open file; a read of nothing is its end.
  abbrev pub on_read :
      Str → ℕ → (ℕ → Program CtlError ℕ) → Result IoError Bytes → Program CtlError ℕ
  on_read path pos again (err e) = throw (CtlError.print (PrintLogError.read path e))
  on_read path pos again (ok []) = return pos
  on_read path pos again (ok (b ∷ bytes)) =
      write_stdout_strict (b ∷ bytes) >> again (pos + length (b ∷ bytes))

  unfoldable pub drain_open : Str → ℕ → ℕ → Program CtlError ℕ
  drain_open path zero pos h = (err CtlError.stuck, h)
  drain_open path (suc fuel) pos h =
      on_read path pos (drain_open path fuel) (m.read_at h path pos) h

  abbrev vanished : Str → ℕ → ErrorKind → IoError → Program CtlError ℕ
  vanished path pos ErrorKind.not_found e = return pos
  vanished path pos _ e = throw (CtlError.print (PrintLogError.read path e))

  abbrev pub opened : Str → ℕ → ℕ → Option IoError → Program CtlError ℕ
  opened path fuel pos none = drain_open path fuel pos
  opened path fuel pos (some e) = vanished path pos e.kind e

  -- The new position is the result.
  unfoldable pub drain_log : Str → ℕ → ℕ → Program CtlError ℕ
  unfolding drain_open
  drain_log path fuel pos h = opened path fuel pos (m.opens h path) h

  abbrev pub scan : Str → List Call → List ServerLog
  scan dir h = sorted_server_logs (join dir) (listing (m.read_dir h dir))

  module _ (dir : Str) (fuel : ℕ) where
    unfoldable pub attach : ServerLog → Program CtlError ℕ
    unfolding announce_attach drain_log
    attach log = announce_attach log.path >> drain_log log.path fuel 0

    -- The logs in order; the last one stays attached, at its position.
    unfoldable pub attach_all : List ServerLog → ServerLog × ℕ → Program CtlError (ServerLog × ℕ)
    attach_all [] at = return at
    attach_all (log ∷ logs) at = attach log >>= λ pos. attach_all logs (log, pos)

    unfoldable pub poll : ServerLog × ℕ → Program CtlError (ServerLog × ℕ)
    unfolding attach_all
    poll at = drain_log at.0.path fuel at.1 >>= λ pos h.
        attach_all (attachments_after at.0.epoch (scan dir h)) (at.0, pos) h

    -- It goes on for as long as `polls` says how it is woken.
    unfoldable pub follow_polls : List Poll → ServerLog × ℕ → Program CtlError (Unit {0})
    unfolding poll
    follow_polls [] at h = (ok tt, h)
    follow_polls (Poll.ctrl_c ∷ polls) at h = (ok tt, h)
    follow_polls (Poll.tick ∷ polls) at h =
        (poll at >>= λ next. follow_polls polls next) (Call.pause ∷ h)

    unfoldable pub follow_log : List Poll → ServerLog → Program CtlError (Unit {0})
    unfolding follow_polls attach
    follow_log polls first = attach first >>= λ pos. follow_polls polls (first, pos)

  abbrev paged : Str → Result IoError Bool → Result CtlError (Unit {0})
  paged prog (err e) = err (CtlError.pager_spawn prog e)
  paged prog (ok true) = ok tt
  paged prog (ok false) = err (CtlError.pager_failed prog)

  abbrev run_pager : Str × List Str → Str → Program CtlError (Unit {0})
  run_pager command path h = (
    paged command.0 (m.pager h command.0 (command.1 ++ path ∷ [])),
    Call.pager command.0 (command.1 ++ path ∷ []) ∷ h,
  )

  abbrev shown : LogFlags → Str → ℕ → List Poll → ServerLog → Program CtlError (Unit {0})
  shown flags dir fuel polls log =
      if flags.follow
      then follow_log dir fuel polls log
      else if flags.no_pager
      then wrapped CtlError.print (print_log_whole log.path) >> return tt
      else run_pager (pager_command m.lookup) log.path

  abbrev found : LogFlags → Str → ℕ → List Poll → Option ServerLog → Program CtlError (Unit {0})
  found flags dir fuel polls none = throw (CtlError.no_log dir)
  found flags dir fuel polls (some log) = shown flags dir fuel polls log

  -- `polls` is how the follow loop is woken, and `fuel` bounds the reads of one drain.
  unfoldable pub log : Config → LogFlags → ℕ → List Poll → Program CtlError (Unit {0})
  unfolding pager_command print_log_whole follow_log
  log cfg flags fuel polls h = found flags cfg.log_dir fuel polls (newest (scan cfg.log_dir h)) h

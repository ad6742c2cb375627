-- ===== src/Ctl/Logs/Followed.antt =====
-- What `log --follow` of src/ctl/mod.rs prints.
use nix_capsule.Ctl.Paths.CaughtUp.{last_of, caught_up}
use nix_capsule.Ctl.Layout.{join}
use nix_capsule.Prelude.Io.{IoError}
use nix_capsule.Ctl.Machine.{Call, Machine, Program, continue_with, ◌>>=◌}
use nix_capsule.Ctl.Logs.Drained.{printed, Settled, drain_log_prints}
use nix_capsule.Ctl.Logs.{
  listing, Poll, announce_attach, drain_log, scan, attach, attach_all, poll, follow_polls,
  follow_log, log,
}
use nix_capsule.Ctl.Paths.{
  ServerLog, sorted_server_logs, attachments_after, sorted_server_logs-Ascending, newer,
  attachments_exact,
}
use nix_capsule.Ctl.Errors.{CtlError}
use nix_capsule.Ctl.Config.SetupEnv.{file_name}
use nix_capsule.Prelude.Chars.{as_bytes}
use nix_capsule.Prelude.{
  length, drop, Result, ok, Bytes, Str, codes, ℕ, ◌≤◌, ◌<◌, ◌≡◌, refl, sym, ap, ◌∙◌, List, [], ◌∷◌,
  ◌++◌, append-nil, append_assoc, arith,
}

-- The program gives `a` and prints `bytes`.
abbrev Prints : {A : Type 0} → List Call → Result CtlError A × List Call → A → Bytes → Type 0
Prints h r a bytes = (r.0 ≡ ok a) × (printed r.1 ≡ printed h ++ bytes)

module _ {A B : Type 0} (f : A → Program CtlError B) (a : A) (b : B) (h : List Call)
    (first later : Bytes) where
  continue-Prints :
      (r : Result CtlError A) (t : List Call)
      → Prints h (r, t) a first
      → Prints t (f a t) b later
      → Prints h (continue_with f (r, t)) b (first ++ later)
  continue-Prints r t (gives, wrote) (gives_b, wrote_b) =
      rw gives (gives_b, wrote_b ∙ rw wrote (append_assoc (printed h) first later))

  bind-Prints :
      (p : Program CtlError A)
      → Prints h (p h) a first
      → Prints (p h).1 (f a (p h).1) b later
      → Prints h ((p >>= f) h) b (first ++ later)
  bind-Prints p = continue-Prints (p h).0 (p h).1

drop_all : (bytes : Bytes) → drop (length bytes) bytes ≡ []
drop_all [] = refl
drop_all (b ∷ bytes) = drop_all bytes

abbrev header : ServerLog → Bytes
header log = as_bytes (codes "==> following " ++ (file_name log.path ++ codes " <==\n"))

-- Each log behind a line that announces it.
abbrev pub sections : (Str → Bytes) → List ServerLog → Bytes
sections content [] = []
sections content (log ∷ logs) = (header log ++ content log.path) ++ sections content logs

-- What a scan of the directory finds.
abbrev pub found_in : Str → Result IoError (List (Result IoError Str)) → List ServerLog
found_in dir entries = sorted_server_logs (join dir) (listing entries)

module _ (m : Machine) (dir : Str) (size fuel : ℕ) (content : Str → Bytes) where
  -- The logs stay as they are, and the fuel of a drain is more than a log's bytes.
  abbrev pub AllSettled : List ServerLog → Type 0
  AllSettled [] = Unit
  AllSettled (log ∷ logs) =
      Settled m log.path size (content log.path)
      × (length (content log.path) < fuel)
      × AllSettled logs

  -- The attached log has been read to its end.
  abbrev at_end : ServerLog → ServerLog × ℕ
  at_end log = (log, length (content log.path))

  module _ (some_size : 0 < size) where
    drained :
        (log : ServerLog) (pos : ℕ) (h : List Call)
        → Settled m log.path size (content log.path)
        → length (content log.path) < fuel
        → pos ≤ length (content log.path)
        → Prints h
            (drain_log m log.path fuel pos h)
            (length (content log.path))
            (drop pos (content log.path))
    drained log pos h still enough small =
        drain_log_prints m log.path size (content log.path) fuel pos h still some_size small
          (omega (arith, enough))

    announced :
        (log : ServerLog) (h : List Call)
        → Settled m log.path size (content log.path)
        → Prints h (announce_attach m log.path h) tt (header log)
    unfolding announce_attach printed
    announced log h still = rw (still.taken h (header log)) (refl, refl)

    attached :
        (log : ServerLog) (h : List Call)
        → Settled m log.path size (content log.path)
        → length (content log.path) < fuel
        → Prints h
            (attach m dir fuel log h)
            (length (content log.path))
            (header log ++ content log.path)
    unfolding attach
    attached log h still enough =
        bind-Prints (λ _. drain_log m log.path fuel 0) tt (length (content log.path)) h (header log)
          (content log.path) (announce_attach m log.path) (announced log h still)
          (drained log 0 (announce_attach m log.path h).1 still enough (omega arith))

    attached_all :
        (at : ServerLog) (logs : List ServerLog) (h : List Call)
        → AllSettled logs
        → Prints h
            (attach_all m dir fuel logs (at_end at) h)
            (at_end (last_of at logs))
            (sections content logs)
    unfolding attach_all
    attached_all at [] h still = (refl, sym (append-nil (printed h)))
    attached_all at (log ∷ logs) h (still, enough, others) =
        bind-Prints (λ pos. attach_all m dir fuel logs (log, pos)) (length (content log.path))
          (at_end (last_of log logs)) h (header log ++ content log.path) (sections content logs)
          (attach m dir fuel log) (attached log h still enough)
          (attached_all log logs (attach m dir fuel log h).1 others)

  follow_settled :
      (at : ServerLog) (logs : List ServerLog)
      → AllSettled (at ∷ logs)
      → AllSettled (last_of at logs ∷ [])
  follow_settled at [] (still, enough, others) = (still, enough, tt)
  follow_settled at (log ∷ logs) (still, enough, others) = follow_settled log logs others

  module _ (some_size : 0 < size) (entries : Result IoError (List (Result IoError Str)))
      (listed : (h : List Call) → m.read_dir h dir ≡ entries) where
    abbrev later_logs : ServerLog → List ServerLog
    later_logs at = newer at.epoch (found_in dir entries)

    poll-Prints :
        (at : ServerLog) (pos : ℕ) (h : List Call)
        → Settled m at.path size (content at.path)
        → length (content at.path) < fuel
        → pos ≤ length (content at.path)
        → AllSettled (later_logs at)
        → Prints h
            (poll m dir fuel (at, pos) h)
            (at_end (last_of at (later_logs at)))
            (drop pos (content at.path) ++ sections content (later_logs at))
    unfolding poll
    poll-Prints at pos h still enough small others =
        let before = drain_log m at.path fuel pos h in
        bind-Prints
          (λ pos t. attach_all m dir fuel (attachments_after at.epoch (scan m dir t)) (at, pos) t)
          (length (content at.path)) (at_end (last_of at (later_logs at))) h
          (drop pos (content at.path)) (sections content (later_logs at))
          (drain_log m at.path fuel pos) (drained some_size at pos h still enough small)
          (rw (listed before.1, attachments_exact at.epoch (join dir) (listing entries))
            (attached_all some_size at (later_logs at) before.1 others))

    -- Once the last log is attached and read to its end, a follow prints nothing more.
    follow_polls-Prints :
        (polls : List Poll) (at : ServerLog) (h : List Call)
        → Settled m at.path size (content at.path)
        → length (content at.path) < fuel
        → later_logs at ≡ []
        → Prints h (follow_polls m dir fuel polls (at_end at) h) tt []
    unfolding follow_polls printed
    follow_polls-Prints [] at h still enough alone = (refl, sym (append-nil (printed h)))
    follow_polls-Prints (Poll.ctrl_c ∷ polls) at h still enough alone =
        (refl, sym (append-nil (printed h)))
    follow_polls-Prints (Poll.tick ∷ polls) at h still enough alone =
        let woken = Call.pause ∷ h in
        let polled =
          poll-Prints at (length (content at.path)) woken still enough (omega arith)
            (rw alone tt) in
        let quiet : Prints woken (poll m dir fuel (at_end at) woken) (at_end at) [] =
          rw (alone, drop_all (content at.path)) at polled in
        let (gives, wrote) =
          bind-Prints (follow_polls m dir fuel polls) (at_end at) tt woken [] []
            (poll m dir fuel (at_end at)) quiet
            (follow_polls-Prints polls at (poll m dir fuel (at_end at) woken).1 still enough
              alone) in
        (gives, wrote ∙ ap (λ t. t ++ []) (append-nil (printed h)))

    woken_once :
        (polls : List Poll) (at : ServerLog) (h : List Call)
        → AllSettled (at ∷ later_logs at)
        → Prints h
            (follow_polls m dir fuel (Poll.tick ∷ polls) (at_end at) h)
            tt
            (sections content (later_logs at))
    unfolding follow_polls printed
    woken_once polls at h (still, enough, others) =
        let woken = Call.pause ∷ h in
        let last = last_of at (later_logs at) in
        let polled : Prints woken (poll m dir fuel (at_end at) woken) (at_end last)
            (sections content (later_logs at)) =
          rw (drop_all (content at.path)) at
            (poll-Prints at (length (content at.path)) woken still enough (omega arith) others) in
        let (last_still, last_enough, _) =
          follow_settled at (later_logs at) (still, enough, others) in
        let (gives, wrote) =
          bind-Prints (follow_polls m dir fuel polls) (at_end last) tt woken
            (sections content (later_logs at)) [] (poll m dir fuel (at_end at)) polled
            (follow_polls-Prints polls last (poll m dir fuel (at_end at) woken).1 last_still
              last_enough
              (caught_up at 0 (found_in dir entries)
                (sorted_server_logs-Ascending (join dir) (listing entries)))) in
        (
          gives,
          wrote ∙ rw (append-nil (printed h), append-nil (sections content (later_logs at))) refl,
        )

  -- A follow that is woken at least once, over logs and a directory that stay as they are: it succeeds, and it prints
  -- the log that it began with and each log of the directory with a later epoch, in the order of the
  -- epochs, each behind the line that announces it, whole and once, and nothing else however often it is
  -- woken.
  pub follow_log_prints :
      (entries : Result IoError (List (Result IoError Str))) (polls : List Poll) (first : ServerLog)
      (h : List Call)
      → 0 < size
      → ((t : List Call) → m.read_dir t dir ≡ entries)
      → AllSettled (first ∷ newer first.epoch (found_in dir entries))
      → let r = follow_log m dir fuel (Poll.tick ∷ polls) first h in
        (r.0 ≡ ok tt)
        × (printed r.1
            ≡ printed h ++ sections content (first ∷ newer first.epoch (found_in dir entries)))
  unfolding follow_log
  follow_log_prints entries polls first h some_size listed (still, enough, others) =
      bind-Prints (λ pos. follow_polls m dir fuel (Poll.tick ∷ polls) (first, pos))
        (length (content first.path)) tt h (header first ++ content first.path)
        (sections content (newer first.epoch (found_in dir entries))) (attach m dir fuel first)
        (attached some_size first h still enough)
        (woken_once some_size entries listed polls first (attach m dir fuel first h).1
          (still, enough, others))

-- ===== src/Ctl/Paths/CaughtUp.antt =====
-- The follow selection of src/ctl/mod.rs leaves nothing behind: past its last log there is none.
use nix_capsule.Ctl.Paths.{ServerLog, Ascending, newer, newer_all}
use nix_capsule.Prelude.{
  ltb, ltb→lt, le→ltb, Bool-cases, not_ltb-le, ℕ, ◌≤◌, ◌≡◌, refl, inl, inr, List, [], ◌∷◌, arith,
}

abbrev pub last_of : ServerLog → List ServerLog → ServerLog
last_of at [] = at
last_of at (log ∷ logs) = last_of log logs

abbrev Bounded : ℕ → List ServerLog → Type 0
Bounded high [] = Unit
Bounded high (log ∷ logs) = (log.epoch ≤ high) × Bounded high logs

Bounded-newer : (high : ℕ) (logs : List ServerLog) → Bounded high logs → newer high logs ≡ []
Bounded-newer high [] low = refl
Bounded-newer high (log ∷ logs) (low, others) =
    rw (le→ltb high log.epoch low) (Bounded-newer high logs others)

last_of-Bounded :
    (at : ServerLog) (logs : List ServerLog)
    → Ascending at.epoch logs
    → (at.epoch ≤ (last_of at logs).epoch) × Bounded (last_of at logs).epoch logs
last_of-Bounded at [] up = (omega arith, tt)
last_of-Bounded at (log ∷ logs) (first, up) =
    let (later, bounded) = last_of-Bounded log logs up in
    (omega (arith, first, later), (later, bounded))

newer-Ascending :
    (last_epoch low : ℕ) (logs : List ServerLog)
    → Ascending low logs
    → Ascending last_epoch (newer last_epoch logs)
newer-Ascending last_epoch low [] up = tt
newer-Ascending last_epoch low (log ∷ logs) (first, up) =
    elim (Bool-cases (ltb last_epoch log.epoch)) [
      | inl past ↦
          let past_it = ltb→lt last_epoch log.epoch past in
          rw (past, newer_all last_epoch log.epoch logs past_it up) (omega (arith, past_it), up)
      | inr old ↦ rw old (newer-Ascending last_epoch log.epoch logs up)
    ]

newer-Bounded :
    (last_epoch high : ℕ) (logs : List ServerLog)
    → last_epoch ≤ high
    → Bounded high (newer last_epoch logs)
    → Bounded high logs
newer-Bounded last_epoch high [] small b = tt
newer-Bounded last_epoch high (log ∷ logs) small b = elim (Bool-cases (ltb last_epoch log.epoch)) [
  | inl past ↦
      let kept : Bounded high (log ∷ newer last_epoch logs) = rw past at b in
      (kept.0, newer-Bounded last_epoch high logs small kept.1)
  | inr old ↦
      let below = not_ltb-le last_epoch log.epoch old in
      (omega (arith, below, small), newer-Bounded last_epoch high logs small (rw old at b))
]

-- Past the last log that a scan attached, or past the one before it where there was none, the same scan
-- has no log.
pub caught_up :
    (at : ServerLog) (low : ℕ) (logs : List ServerLog)
    → Ascending low logs
    → newer (last_of at (newer at.epoch logs)).epoch logs ≡ []
caught_up at low logs up =
    let (later, bounded) =
      last_of-Bounded at (newer at.epoch logs) (newer-Ascending at.epoch low logs up) in
    Bounded-newer _ logs (newer-Bounded at.epoch _ logs later bounded)

-- ===== src/Ctl/Paths.antt =====
-- The server log files of src/ctl/paths.rs, and the selection of src/ctl/mod.rs that follows them.
pub mod CaughtUp
use nix_capsule.Prelude.{
  ltb, leb, ◌==◌, if◌then◌else◌, lt→ltb, le→ltb, leb→le, Bool-cases, ltb-le, not_ltb-le, not_leb-lt,
  &&-left, &&-right, all, Str, codes, is_empty, is_ascii_digit, strip_prefix, strip_suffix, ℕ, ◌≤◌,
  ◌<◌, ◌≡◌, refl, inl, inr, true, false, not, ◌||◌, Option, none, some, List, [], ◌∷◌, ◌++◌, arith,
}
use nix_capsule.Prelude.Decimal.{
  to_decimal, max_u64, scan, scan-to_decimal, to_decimal-all, to_decimal_nonempty,
}

-- A server log file: its epoch and its path.
pub record ServerLog : Type 0 where
  pub epoch : ℕ
  pub path : Str

abbrev server_log_prefix : Str
server_log_prefix = codes "ncap-server-"

abbrev server_log_suffix : Str
server_log_suffix = codes ".log"

-- The file name of `server_log_path`, which the directory is joined with.
unfoldable pub server_log_path : ℕ → Str
server_log_path epoch_millis = server_log_prefix ++ (to_decimal epoch_millis ++ server_log_suffix)

abbrev pub parse_epoch : Str → Option ℕ
parse_epoch epoch = if is_empty epoch || not (all is_ascii_digit epoch) then none else scan epoch 0

abbrev pub parse_stem : Option Str → Option ℕ
parse_stem none = none
parse_stem (some epoch) = parse_epoch epoch

abbrev pub parse_rest : Option Str → Option ℕ
parse_rest none = none
parse_rest (some rest) = parse_stem (strip_suffix server_log_suffix rest)

unfoldable pub parse_server_log_epoch : Str → Option ℕ
parse_server_log_epoch name = parse_rest (strip_prefix server_log_prefix name)

-- The scan keeps the names that parse; `dir` joins a name with the directory.
abbrev scanned : (Str → Str) → List Str → List ServerLog
scanned dir [] = []
scanned dir (name ∷ names) = elim (parse_server_log_epoch name) [
  | none ↦ scanned dir names
  | some epoch ↦ record { epoch = epoch; path = dir name } ∷ scanned dir names
]

-- `sort_by_key` is stable: an entry goes behind those with the same key.
abbrev insert : ServerLog → List ServerLog → List ServerLog
insert x [] = x ∷ []
insert x (y ∷ ys) = if ltb y.epoch x.epoch then y ∷ insert x ys else x ∷ y ∷ ys

abbrev sort_by_epoch : List ServerLog → List ServerLog
sort_by_epoch [] = []
sort_by_epoch (x ∷ xs) = insert x (sort_by_epoch xs)

-- `sorted_server_logs`: a directory that cannot be read holds no log files.
unfoldable pub sorted_server_logs : (Str → Str) → Option (List Str) → List ServerLog
sorted_server_logs dir none = []
sorted_server_logs dir (some names) = sort_by_epoch (scanned dir names)

-- `scan.iter().skip_while(…)`
unfoldable pub attachments_after : ℕ → List ServerLog → List ServerLog
attachments_after last_epoch [] = []
attachments_after last_epoch (log ∷ logs) =
    if leb log.epoch last_epoch then attachments_after last_epoch logs else log ∷ logs

not_dot : (c : ℕ) → is_ascii_digit c ≡ true → (c == b'.') ≡ false
not_dot c h = ground arith

strip_suffix-digits :
    (s : Str)
    → all is_ascii_digit s ≡ true
    → strip_suffix server_log_suffix (s ++ server_log_suffix) ≡ some s
strip_suffix-digits [] h = refl
strip_suffix-digits (c ∷ s) h = rw (
  not_dot c (&&-left (is_ascii_digit c) (all is_ascii_digit s) h),
  strip_suffix-digits s (&&-right (is_ascii_digit c) (all is_ascii_digit s) h),
)

-- The name of a run's log file is read back as its epoch, while the epoch fits a `u64`.
pub parse_server_log_epoch-path :
    (epoch : ℕ) → epoch ≤ max_u64 → parse_server_log_epoch (server_log_path epoch) ≡ some epoch
unfolding parse_server_log_epoch server_log_path
parse_server_log_epoch-path epoch fits = rw (
  strip_suffix-digits (to_decimal epoch) (to_decimal-all epoch),
  to_decimal_nonempty epoch,
  to_decimal-all epoch,
  scan-to_decimal epoch fits,
)

-- The epochs of `logs` are at least `low` and ascend.
abbrev pub Ascending : ℕ → List ServerLog → Type 0
Ascending low [] = Unit
Ascending low (log ∷ logs) = (low ≤ log.epoch) × Ascending log.epoch logs

insert-Ascending :
    (low : ℕ) (x : ServerLog) (logs : List ServerLog)
    → low ≤ x.epoch
    → Ascending low logs
    → Ascending low (insert x logs)
insert-Ascending low x [] hx h = (hx, tt)
insert-Ascending low x (y ∷ ys) hx h = elim (Bool-cases (ltb y.epoch x.epoch)) [
  | inl later ↦ rw later (h.0, insert-Ascending y.epoch x ys (ltb-le y.epoch x.epoch later) h.1)
  | inr first ↦ rw first (hx, (not_ltb-le y.epoch x.epoch first, h.1))
]

sort_by_epoch-Ascending : (logs : List ServerLog) → Ascending 0 (sort_by_epoch logs)
sort_by_epoch-Ascending [] = tt
sort_by_epoch-Ascending (x ∷ xs) =
    insert-Ascending 0 x (sort_by_epoch xs) (omega arith) (sort_by_epoch-Ascending xs)

-- The scan of a log directory ascends by epoch.
pub sorted_server_logs-Ascending :
    (dir : Str → Str) (names : Option (List Str)) → Ascending 0 (sorted_server_logs dir names)
unfolding sorted_server_logs
sorted_server_logs-Ascending dir none = tt
sorted_server_logs-Ascending dir (some names) = sort_by_epoch-Ascending (scanned dir names)

-- Which logs of a scan are past the last attachment.
abbrev pub newer : ℕ → List ServerLog → List ServerLog
newer last_epoch [] = []
newer last_epoch (log ∷ logs) =
    let rest = newer last_epoch logs in if ltb last_epoch log.epoch then log ∷ rest else rest

pub newer_all :
    (last_epoch low : ℕ) (logs : List ServerLog)
    → last_epoch < low
    → Ascending low logs
    → newer last_epoch logs ≡ logs
newer_all last_epoch low [] past h = refl
newer_all last_epoch low (log ∷ logs) past h = rw (
  lt→ltb last_epoch log.epoch (omega arith),
  newer_all last_epoch log.epoch logs (omega arith) h.1,
)

attachments_after-newer :
    (last_epoch low : ℕ) (logs : List ServerLog)
    → Ascending low logs
    → attachments_after last_epoch logs ≡ newer last_epoch logs
unfolding attachments_after
attachments_after-newer last_epoch low [] h = refl
attachments_after-newer last_epoch low (log ∷ logs) h =
    elim (Bool-cases (leb log.epoch last_epoch)) [
      | inl old ↦
          rw (old, le→ltb last_epoch log.epoch (leb→le log.epoch last_epoch old))
            (attachments_after-newer last_epoch log.epoch logs h.1)
      | inr fresh ↦ rw (
        fresh,
        lt→ltb last_epoch log.epoch (not_leb-lt log.epoch last_epoch fresh),
        newer_all last_epoch log.epoch logs (not_leb-lt log.epoch last_epoch fresh) h.1,
      )
    ]

-- A follow cycle over a scanned directory attaches every log whose epoch is past the last attachment,
-- and no other, in the order of the scan.
pub attachments_exact :
    (last_epoch : ℕ) (dir : Str → Str) (names : Option (List Str))
    → attachments_after last_epoch (sorted_server_logs dir names)
      ≡ newer last_epoch (sorted_server_logs dir names)
attachments_exact last_epoch dir names =
    attachments_after-newer last_epoch 0 _ (sorted_server_logs-Ascending dir names)

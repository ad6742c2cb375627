-- ===== src/Ctl/Config/Readings.antt =====
-- What the readings of single variables in src/ctl/config.rs give.
use nix_capsule.Prelude.{
  if◌then◌else◌, Bool-cases, Result, ok, err, map_err, ok-injective, >>=-eq-ok, Str, codes, str_eq,
  str_eq_sound, is_empty, ℕ, ◌≡◌, refl, sym, ap, ◌∙◌, ◌⊎◌, inl, inr, Bool, true, false, Option,
  none, some, List, [], ◌∷◌,
}
use nix_capsule.Server.LogLevel.{LogLevel, as_str, parse_iff}
use nix_capsule.Server.LogLevel as log_level
use nix_capsule.Prelude.Decimal.{parse_u64}
use nix_capsule.Ctl.Config.{
  ConfigError, Shell, non_empty, ok_or, demand, parse_watch_files, runtime_of, parse_runtime,
  parse_timeout, parse_run_opts, harden_of, parse_harden, level_or_bad, parse_log_level,
}

abbrev pub Known : Str → Type 0
Known runtime = (runtime ≡ codes "podman") ⊎ (runtime ≡ codes "docker")

module _ (sh : Shell) where
  -- The variable is set to the value, which is not empty.
  abbrev pub Given : Str → Str → Type 0
  Given var value = (sh.lookup var ≡ some value) × (is_empty value ≡ false)

  -- The text names the runtime, or it is `auto` and the runtime is the first of the two in `PATH`.
  abbrev pub Chosen : Str → Str → Type 0
  Chosen raw runtime =
      (Known raw × (raw ≡ runtime))
      ⊎ ((raw ≡ codes "auto")
          × (((sh.in_path (codes "podman") ≡ true) × (runtime ≡ codes "podman"))
              ⊎ ((sh.in_path (codes "podman") ≡ false)
                  × (sh.in_path (codes "docker") ≡ true)
                  × (runtime ≡ codes "docker"))))

  -- The variable is set to a text that is not empty and reads as the strings.
  abbrev pub Listed : Str → List Str → Type 0
  Listed var strings = (raw : Str) × Given var raw × (sh.strings_of_json raw ≡ ok strings)

  non_empty-Given :
      (var : Str) (o : Option Str) {value : Str}
      → ok_or var (non_empty o) ≡ ok value
      → (o ≡ some value) × (is_empty value ≡ false)
  non_empty-Given var none e = cc
  non_empty-Given var (some []) e = cc
  non_empty-Given var (some (c ∷ s)) e = let same = ok-injective e in rw (← same) (refl, refl)

  pub demand-Given : (var : Str) {value : Str} → demand sh var ≡ ok value → Given var value
  unfolding demand
  demand-Given var {value} e = non_empty-Given var (sh.lookup var) {value = value} e

  found_in_path :
      (podman docker : Bool) {runtime : Str}
      → (if podman
          then ok (codes "podman")
          else if docker
          then ok (codes "docker")
          else err ConfigError.no_runtime)
        ≡ ok runtime
      → ((podman ≡ true) × (runtime ≡ codes "podman"))
        ⊎ ((podman ≡ false) × (docker ≡ true) × (runtime ≡ codes "docker"))
  found_in_path true docker e = inl (refl, sym (ok-injective e))
  found_in_path false true e = inr (refl, refl, sym (ok-injective e))
  found_in_path false false e = cc

  runtime_of-Chosen :
      (raw : Str) {runtime : Str} → runtime_of sh raw ≡ ok runtime → Chosen raw runtime
  runtime_of-Chosen raw {runtime} e = elim (Bool-cases (str_eq raw (codes "podman"))) [
    | inl podman ↦
        inl (inl (str_eq_sound raw (codes "podman") podman), ok-injective (rw podman at e))
    | inr no_podman ↦ elim (Bool-cases (str_eq raw (codes "docker"))) [
      | inl docker ↦ inl (
        inr (str_eq_sound raw (codes "docker") docker),
        ok-injective (rw (no_podman, docker) at e),
      )
      | inr no_docker ↦ elim (Bool-cases (str_eq raw (codes "auto"))) [
        | inl auto ↦ inr (
          str_eq_sound raw (codes "auto") auto,
          found_in_path (sh.in_path (codes "podman")) (sh.in_path (codes "docker"))
              (rw (no_podman, no_docker, auto) at e),
        )
        | inr unknown ↦ cc (rw (no_podman, no_docker, unknown) at e)
      ]
    ]
  ]

  pub parse_runtime-Chosen :
      {runtime : Str}
      → parse_runtime sh ≡ ok runtime
      → (raw : Str) × Given (codes "NCAP_RUNTIME") raw × Chosen raw runtime
  unfolding parse_runtime
  parse_runtime-Chosen {runtime} e =
      let (raw, set, found) = >>=-eq-ok (demand sh (codes "NCAP_RUNTIME")) _ e in
      (
        raw,
        demand-Given (codes "NCAP_RUNTIME") set,
        runtime_of-Chosen raw {runtime = runtime} found,
      )

  map_err-ok :
      {E F : Type 0} {A : Type 0} (f : E → F) (r : Result E A) {a : A}
      → map_err f r ≡ ok a
      → r ≡ ok a
  map_err-ok f (ok b) e = ap ok (ok-injective e)
  map_err-ok f (err x) e = cc

  pub parse_timeout-Given :
      {timeout : ℕ}
      → parse_timeout sh ≡ ok timeout
      → (raw : Str) × Given (codes "NCAP_TIMEOUT") raw × (parse_u64 raw ≡ ok timeout)
  unfolding parse_timeout
  parse_timeout-Given e =
      let (raw, set, read) = >>=-eq-ok (demand sh (codes "NCAP_TIMEOUT")) _ e in
      (
        raw,
        demand-Given (codes "NCAP_TIMEOUT") set,
        map_err-ok ConfigError.bad_timeout (parse_u64 raw) read,
      )

  pub parse_watch_files-Listed :
      {strings : List Str}
      → parse_watch_files sh ≡ ok strings
      → Listed (codes "NCAP_WATCH_FILES") strings
  unfolding parse_watch_files
  parse_watch_files-Listed e =
      let (raw, set, read) = >>=-eq-ok (demand sh (codes "NCAP_WATCH_FILES")) _ e in
      (
        raw,
        demand-Given (codes "NCAP_WATCH_FILES") set,
        map_err-ok (ConfigError.not_json_array (codes "NCAP_WATCH_FILES")) (sh.strings_of_json raw)
            read,
      )

  pub parse_run_opts-Listed :
      {strings : List Str} → parse_run_opts sh ≡ ok strings → Listed (codes "NCAP_RUN_OPTS") strings
  unfolding parse_run_opts
  parse_run_opts-Listed e =
      let (raw, set, read) = >>=-eq-ok (demand sh (codes "NCAP_RUN_OPTS")) _ e in
      (
        raw,
        demand-Given (codes "NCAP_RUN_OPTS") set,
        map_err-ok (ConfigError.not_json_array (codes "NCAP_RUN_OPTS")) (sh.strings_of_json raw)
            read,
      )

  harden_of-text :
      (raw : Str) {harden : Bool}
      → harden_of sh raw ≡ ok harden
      → raw ≡ (if harden then codes "true" else codes "false")
  harden_of-text raw {harden} e = elim (Bool-cases (str_eq raw (codes "true"))) [
    | inl spelled ↦
        let same : true ≡ harden = ok-injective (rw spelled at e) in
        rw (← same) (str_eq_sound raw (codes "true") spelled)
    | inr not_true ↦ elim (Bool-cases (str_eq raw (codes "false"))) [
      | inl denied ↦
          let same : false ≡ harden = ok-injective (rw (not_true, denied) at e) in
          rw (← same) (str_eq_sound raw (codes "false") denied)
      | inr bad ↦ cc (rw (not_true, bad) at e)
    ]
  ]

  pub parse_harden-Given :
      {harden : Bool}
      → parse_harden sh ≡ ok harden
      → Given (codes "NCAP_HARDEN") (if harden then codes "true" else codes "false")
  unfolding parse_harden
  parse_harden-Given {harden} e =
      let (raw, set, read) = >>=-eq-ok (demand sh (codes "NCAP_HARDEN")) _ e in
      rw (← harden_of-text raw {harden = harden} read) (demand-Given (codes "NCAP_HARDEN") set)

  level_of-text :
      (raw : Str) (o : Option LogLevel) {level : LogLevel}
      → log_level.parse raw ≡ o
      → level_or_bad sh raw o ≡ ok level
      → raw ≡ as_str level
  level_of-text raw none at e = cc
  level_of-text raw (some l) {level} at e = (parse_iff raw level).0 (at ∙ ap some (ok-injective e))

  pub parse_log_level-Given :
      {level : LogLevel}
      → parse_log_level sh ≡ ok level
      → Given (codes "NCAP_LOG_LEVEL") (as_str level)
  unfolding parse_log_level
  parse_log_level-Given {level} e =
      let (raw, set, read) = >>=-eq-ok (demand sh (codes "NCAP_LOG_LEVEL")) _ e in
      rw (← level_of-text raw (log_level.parse raw) {level = level} refl read)
        (demand-Given (codes "NCAP_LOG_LEVEL") set)

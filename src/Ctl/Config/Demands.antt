-- ===== src/Ctl/Config/Demands.antt =====
-- What a resolved configuration of src/ctl/config.rs is made of.
use nix_capsule.Ctl.Config.Readings.{
  Given, Chosen, Listed, demand-Given, parse_runtime-Chosen, parse_timeout-Given,
  parse_watch_files-Listed, parse_run_opts-Listed, parse_harden-Given, parse_log_level-Given,
}
use nix_capsule.Prelude.{
  if◌then◌else◌, Bool-cases, All, ok, ok-injective, >>=-eq-ok, Str, codes, ◌≡◌, refl, inl, inr,
  Bool, true, false, not, ◌&&◌, ◌||◌, List, [], ◌∷◌,
}
use nix_capsule.Server.LogLevel.{as_str}
use nix_capsule.Prelude.Decimal.{parse_u64}
use nix_capsule.Ctl.Layout.{join, is_relative}
use nix_capsule.Ctl.Config.{
  Config, Shell, has_parent, demand, parse_watch_files, validate_watch_files, parse_runtime,
  parse_timeout, parse_run_opts, parse_harden, parse_log_level,
}
use nix_capsule.Ctl.Config.Resolve.{resolve}

-- A watch file stays below the root, and what exists there is a file.
abbrev pub Watched : Shell → Str → Str → Type 0
Watched sh root entry =
    (is_relative entry ≡ true)
    × (has_parent [] entry ≡ false)
    × ((sh.exists (join root entry) && not (sh.is_file (join root entry))) ≡ false)

relative_of : (relative parent : Bool) → (not relative || parent) ≡ false → relative ≡ true
relative_of true parent h = refl
relative_of false parent h = cc

no_parent_of : (relative parent : Bool) → (not relative || parent) ≡ false → parent ≡ false
no_parent_of true parent h = h
no_parent_of false parent h = cc

module _ (sh : Shell) where
  -- What each field of a configuration is, by the variables it comes from.
  pub record Resolved (c : Config) : Type 0 where
    pub runtime : (raw : Str) × Given sh (codes "NCAP_RUNTIME") raw × Chosen sh raw c.runtime
    pub timeout : (raw : Str) × Given sh (codes "NCAP_TIMEOUT") raw × (parse_u64 raw ≡ ok c.timeout)
    pub watch_files : Listed sh (codes "NCAP_WATCH_FILES") c.watch_files
    pub watched : All (Watched sh c.root) c.watch_files
    pub run_opts : Listed sh (codes "NCAP_RUN_OPTS") c.run_opts
    pub harden : Given sh (codes "NCAP_HARDEN") (if c.harden then codes "true" else codes "false")
    pub level : Given sh (codes "NCAP_LOG_LEVEL") (as_str c.level)
    pub root : Given sh (codes "NCAP_PROJECT_ROOT") c.root
    pub project : Given sh (codes "NCAP_PROJECT") c.project
    pub container : Given sh (codes "NCAP_CONTAINER") c.container
    pub socket : Given sh (codes "NCAP_SOCKET") c.socket
    pub cache_dir : Given sh (codes "NCAP_CACHE_DIR") c.cache_dir
    pub log_dir : Given sh (codes "NCAP_LOG_DIR") c.log_dir
    pub devshell : Given sh (codes "NCAP_DEVSHELL") c.devshell
    pub nix : Given sh (codes "NCAP_NIX") c.nix
    pub image : Given sh (codes "NCAP_IMAGE") c.image
    pub server : Given sh (codes "NCAP_SERVER") c.server
    pub bash : Given sh (codes "NCAP_BASH") c.bash

  validate-Watched :
      (root : Str) (entries : List Str)
      → validate_watch_files sh root entries ≡ ok tt
      → All (Watched sh root) entries
  unfolding validate_watch_files
  validate-Watched root [] e = tt
  validate-Watched root (entry ∷ entries) e =
      elim (Bool-cases (not (is_relative entry) || has_parent [] entry)) [
        | inl outside ↦ cc (rw outside at e)
        | inr inside ↦
            elim (Bool-cases (sh.exists (join root entry) && not (sh.is_file (join root entry)))) [
              | inl no_file ↦ cc (rw (inside, no_file) at e)
              | inr file ↦ (
                (
                  relative_of (is_relative entry) (has_parent [] entry) inside,
                  no_parent_of (is_relative entry) (has_parent [] entry) inside,
                  file,
                ),
                validate-Watched root entries (rw (inside, file) at e),
              )
            ]
      ]

  -- In a configuration that resolves each value comes from its own variable, which is set and not empty:
  -- the runtime it names or, for `auto`, the first of podman and docker in `PATH`; the number it reads as;
  -- the strings that its JSON text reads as, and the watch files stay below the root and are files where
  -- they exist; the truth value and the level that it spells; and else the text itself.
  pub resolve-Resolved : {c : Config} → resolve sh ≡ ok c → Resolved c
  unfolding resolve
  resolve-Resolved {c} e =
      let (runtime, e1, t1) = >>=-eq-ok (parse_runtime sh) _ e in
      let (timeout, e2, t2) = >>=-eq-ok (parse_timeout sh) _ t1 in
      let (watch_files, e3, t3) = >>=-eq-ok (parse_watch_files sh) _ t2 in
      let (run_opts, e4, t4) = >>=-eq-ok (parse_run_opts sh) _ t3 in
      let (harden, e5, t5) = >>=-eq-ok (parse_harden sh) _ t4 in
      let (level, e6, t6) = >>=-eq-ok (parse_log_level sh) _ t5 in
      let (root, e7, t7) = >>=-eq-ok (demand sh (codes "NCAP_PROJECT_ROOT")) _ t6 in
      let (tt, e8, t8) = >>=-eq-ok (validate_watch_files sh root watch_files) _ t7 in
      let (project, e9, t9) = >>=-eq-ok (demand sh (codes "NCAP_PROJECT")) _ t8 in
      let (container, e10, t10) = >>=-eq-ok (demand sh (codes "NCAP_CONTAINER")) _ t9 in
      let (socket, e11, t11) = >>=-eq-ok (demand sh (codes "NCAP_SOCKET")) _ t10 in
      let (cache_dir, e12, t12) = >>=-eq-ok (demand sh (codes "NCAP_CACHE_DIR")) _ t11 in
      let (log_dir, e13, t13) = >>=-eq-ok (demand sh (codes "NCAP_LOG_DIR")) _ t12 in
      let (devshell, e14, t14) = >>=-eq-ok (demand sh (codes "NCAP_DEVSHELL")) _ t13 in
      let (nix, e15, t15) = >>=-eq-ok (demand sh (codes "NCAP_NIX")) _ t14 in
      let (image, e16, t16) = >>=-eq-ok (demand sh (codes "NCAP_IMAGE")) _ t15 in
      let (server, e17, t17) = >>=-eq-ok (demand sh (codes "NCAP_SERVER")) _ t16 in
      let (bash, e18, t18) = >>=-eq-ok (demand sh (codes "NCAP_BASH")) _ t17 in
      rw (← ok-injective t18) (record {
        runtime = parse_runtime-Chosen sh e1;
        timeout = parse_timeout-Given sh e2;
        watch_files = parse_watch_files-Listed sh e3;
        watched = validate-Watched root watch_files e8;
        run_opts = parse_run_opts-Listed sh e4;
        harden = parse_harden-Given sh e5;
        level = parse_log_level-Given sh e6;
        root = demand-Given sh (codes "NCAP_PROJECT_ROOT") e7;
        project = demand-Given sh (codes "NCAP_PROJECT") e9;
        container = demand-Given sh (codes "NCAP_CONTAINER") e10;
        socket = demand-Given sh (codes "NCAP_SOCKET") e11;
        cache_dir = demand-Given sh (codes "NCAP_CACHE_DIR") e12;
        log_dir = demand-Given sh (codes "NCAP_LOG_DIR") e13;
        devshell = demand-Given sh (codes "NCAP_DEVSHELL") e14;
        nix = demand-Given sh (codes "NCAP_NIX") e15;
        image = demand-Given sh (codes "NCAP_IMAGE") e16;
        server = demand-Given sh (codes "NCAP_SERVER") e17;
        bash = demand-Given sh (codes "NCAP_BASH") e18;
      })

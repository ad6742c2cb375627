-- ===== src/Ctl/Arguments/Mounts.antt =====
-- The mounts that `build_runtime_args` of src/ctl/mod.rs asks for.
use nix_capsule.Ctl.Arguments.Volumes.{
  Mount, same_path, read_volume, Next, read_mounts, volume_rw, volume_ro, read_mounts-mount_ro,
  join-Lacks,
}
use nix_capsule.Ctl.Config.{Config}
use nix_capsule.Ctl.Machine.{Call, Machine}
use nix_capsule.Ctl.Layout.{join}
use nix_capsule.Ctl.Arguments.{
  parent, mount, mount_ro, harden_args, git_args, watch_args, watched_args, expand_all,
  default_args, build_runtime_args,
}
use nix_capsule.Prelude.{
  if◌then◌else◌, Bool-cases, All, ok, ok-injective, >>=-eq-ok, Str, codes, Lacks, ◌≡◌, refl, sym,
  ap, ◌∙◌, inl, inr, Bool, true, false, some, List, [], ◌∷◌, ◌++◌, arith,
}

optional-append :
    (b : Bool) (f : List Str → List Str) (args : List Str)
    → f args ≡ f [] ++ args
    → (if b then f args else args) ≡ (if b then f [] else []) ++ args
optional-append true f args e = e
optional-append false f args e = refl

flags-append :
    (b : Bool) (flag value : Str) (front args : List Str)
    → (if b then flag ∷ value ∷ (front ++ args) else front ++ args)
      ≡ (if b then flag ∷ value ∷ front else front) ++ args
flags-append true flag value front args = refl
flags-append false flag value front args = refl

module _ (m : Machine) (cfg : Config) (h : List Call) where
  -- The watched files that exist.
  abbrev pub watched_mounts : List Str → List Mount
  watched_mounts [] = []
  watched_mounts (entry ∷ entries) =
      let rest = watched_mounts entries in
      if m.exists h (join cfg.root entry) then same_path (join cfg.root entry) true ∷ rest else rest

  abbrev hardened_mounts : Bool → List Mount
  hardened_mounts true = watched_mounts cfg.watch_files
  hardened_mounts false = []

  abbrev git_mounts : Bool → List Mount
  git_mounts true = same_path (join cfg.root (codes ".git")) true ∷ hardened_mounts cfg.harden
  git_mounts false = hardened_mounts cfg.harden

  -- The mounts of a launch: writable are the socket's directory, the root and the log directory only.
  abbrev pub default_mounts : Str → List Mount
  default_mounts socket_dir =
      same_path (codes "/nix") true
      ∷ same_path socket_dir false
      ∷ same_path cfg.root false
      ∷ same_path cfg.cache_dir true
      ∷ same_path cfg.log_dir false
      ∷ git_mounts (m.is_real_dir h (join cfg.root (codes ".git")))

  -- The options behind the hardening flags, up to those that a launch may lack.
  abbrev fixed_args : Str → List Str → List Str
  fixed_args dir args =
      codes "-v"
      ∷ codes "/nix:/nix:ro"
      ∷ mount dir
          (mount cfg.root (codes "-w" ∷ cfg.root ∷ mount_ro cfg.cache_dir (mount cfg.log_dir args)))

  watch_args-append :
      (entries args : List Str)
      → watch_args m cfg h entries args ≡ watch_args m cfg h entries [] ++ args
  unfolding watch_args
  watch_args-append [] args = refl
  watch_args-append (entry ∷ entries) args = elim (Bool-cases (m.exists h (join cfg.root entry))) [
    | inl there ↦ rw (there, watch_args-append entries args) refl
    | inr gone ↦ rw (gone, watch_args-append entries args) refl
  ]

  watched_args-append :
      (args : List Str) → watched_args m cfg h args ≡ watched_args m cfg h [] ++ args
  watched_args-append args =
      optional-append cfg.harden (watch_args m cfg h cfg.watch_files) args
        (watch_args-append cfg.watch_files args)

  default_args-append :
      (dir : Str) (args : List Str)
      → default_args m cfg h dir args ≡ default_args m cfg h dir [] ++ args
  default_args-append dir args =
      let git = m.is_real_dir h (join cfg.root (codes ".git")) in
      let front = git_args m cfg h (watched_args m cfg h []) in
      let slots : git_args m cfg h (watched_args m cfg h args) ≡ front ++ args =
        ap (git_args m cfg h) (watched_args-append args)
        ∙ flags-append git (codes "-v") _ (watched_args m cfg h []) args in
      ap (λ t. harden_args m cfg h (fixed_args dir t)) slots
      ∙ flags-append cfg.harden (codes "--cap-drop=all") (codes "--security-opt=no-new-privileges")
          (fixed_args dir front) args

  module _ (plain_root : Lacks b':' cfg.root) where
    read_mounts-watch :
        (entries : List Str)
        → All (Lacks b':') entries
        → read_mounts (watch_args m cfg h entries []) Next.option ≡ some (watched_mounts entries)
    unfolding read_mounts watch_args
    read_mounts-watch [] plain = refl
    read_mounts-watch (entry ∷ entries) (plain, others) =
        elim (Bool-cases (m.exists h (join cfg.root entry))) [
          | inl there ↦ rw there (
              read_mounts-mount_ro (join cfg.root entry)
                (join-Lacks cfg.root entry plain_root plain) (watch_args m cfg h entries [])
                (watched_mounts entries) (read_mounts-watch entries others))
          | inr gone ↦ rw gone (read_mounts-watch entries others)
        ]

    read_mounts-watched :
        (b : Bool)
        → All (Lacks b':') cfg.watch_files
        → read_mounts (if b then watch_args m cfg h cfg.watch_files [] else []) Next.option
          ≡ some (hardened_mounts b)
    unfolding read_mounts
    read_mounts-watched true plain = read_mounts-watch cfg.watch_files plain
    read_mounts-watched false plain = refl

    git-Lacks : Lacks b':' (codes ".git")
    git-Lacks = (
      (λ e. omega (arith, e)),
      ((λ e. omega (arith, e)), ((λ e. omega (arith, e)), ((λ e. omega (arith, e)), tt))),
    )

    read_mounts-git :
        (b : Bool) (args : List Str)
        → read_mounts args Next.option ≡ some (hardened_mounts cfg.harden)
        → read_mounts (if b then mount_ro (join cfg.root (codes ".git")) args else args) Next.option
          ≡ some (git_mounts b)
    unfolding join
    read_mounts-git true args e =
        read_mounts-mount_ro (join cfg.root (codes ".git"))
          (join-Lacks cfg.root (codes ".git") plain_root git-Lacks) args
          (hardened_mounts cfg.harden) e
    read_mounts-git false args e = e

    read_mounts-fixed :
        (dir : Str) (args : List Str) (mounts : List Mount)
        → Lacks b':' dir
        → Lacks b':' cfg.cache_dir
        → Lacks b':' cfg.log_dir
        → read_mounts args Next.option ≡ some mounts
        → read_mounts (fixed_args dir args) Next.option
          ≡ some (
              same_path (codes "/nix") true
              ∷ same_path dir false
              ∷ same_path cfg.root false
              ∷ same_path cfg.cache_dir true
              ∷ same_path cfg.log_dir false
              ∷ mounts)
    unfolding read_mounts read_volume
    read_mounts-fixed dir args mounts plain_dir plain_cache plain_log e =
        rw
          (
            volume_rw dir plain_dir,
            volume_rw cfg.root plain_root,
            volume_ro cfg.cache_dir plain_cache,
            volume_rw cfg.log_dir plain_log,
            e,
          )
          refl

    read_mounts-harden :
        (b : Bool) (args : List Str) (mounts : List Mount)
        → read_mounts args Next.option ≡ some mounts
        → read_mounts
            (if b
              then codes "--cap-drop=all" ∷ codes "--security-opt=no-new-privileges" ∷ args
              else args)
            Next.option
          ≡ some mounts
    unfolding read_mounts
    read_mounts-harden true args mounts e = e
    read_mounts-harden false args mounts e = e

-- The launch options of a socket with a parent, where no path that is mounted has a colon: they are the
-- project's own, and behind them the expanded options of the configuration. Of its own, the container runtime
-- reads exactly the default mounts: each path at itself, writable the socket's directory, the root and
-- the log directory only, read-only `/nix`, the cache, a real `.git`, and, hardened, the watched files that exist.
pub build_runtime_args-default_mounts :
    (m : Machine) (cfg : Config) (h : List Call) (dir : Str) (options : List Str)
    → parent cfg.socket ≡ some dir
    → Lacks b':' dir
    → Lacks b':' cfg.root
    → Lacks b':' cfg.cache_dir
    → Lacks b':' cfg.log_dir
    → All (Lacks b':') cfg.watch_files
    → build_runtime_args m cfg h ≡ ok options
    → (own opts : List Str) × (options ≡ own ++ opts)
      × (expand_all m cfg h cfg.run_opts ≡ ok opts)
      × (read_mounts own Next.option ≡ some (default_mounts m cfg h dir))
unfolding build_runtime_args
build_runtime_args-default_mounts m cfg h dir options at plain_dir plain_root plain_cache plain_log
      plain_watch built =
    let (opts, expanded, made) = >>=-eq-ok (expand_all m cfg h cfg.run_opts) _ (rw at at built) in
    let git = m.is_real_dir h (join cfg.root (codes ".git")) in
    let watched = read_mounts-watched m cfg h plain_root cfg.harden plain_watch in
    let slots = read_mounts-git m cfg h plain_root git (watched_args m cfg h []) watched in
    let fixed =
      read_mounts-fixed m cfg h plain_root dir _ _ plain_dir plain_cache plain_log slots in
    (
      default_args m cfg h dir [],
      opts,
      sym (ok-injective made) ∙ default_args-append m cfg h dir opts,
      expanded,
      read_mounts-harden m cfg h plain_root cfg.harden _ _ fixed,
    )

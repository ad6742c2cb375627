-- ===== src/Ctl/Arguments.antt =====
-- `build_runtime_args` of src/ctl/mod.rs: the mounts and options of a launch.
pub mod Failing
pub mod Volumes
pub mod Mounts
use nix_capsule.Prelude.{
  ◌==◌, if◌then◌else◌, Result, ok, err, ◌>>=◌, map_err, Str, codes, ◌&&◌, ◌||◌, Option, none, some,
  List, [], ◌∷◌, ◌++◌,
}
use nix_capsule.Ctl.Machine.{Call, Machine}
use nix_capsule.Ctl.Errors.{CtlError}
use nix_capsule.Ctl.Config.{Config}
use nix_capsule.Ctl.Expand.{expand_with}
use nix_capsule.Ctl.Layout.{join}

abbrev onto : Str → Str → Str
onto [] r = r
onto (c ∷ s) r = onto s (c ∷ r)

-- A reversed path without the separators and the `.` parts at its end, but for the root.
trim_tail : Str → Str
trim_tail [] = []
trim_tail (c ∷ []) = c ∷ []
trim_tail (c ∷ d ∷ s) =
    let rest = trim_tail (d ∷ s) in if c == b'/' || c == b'.' && d == b'/' then rest else c ∷ d ∷ s

drop_part : Str → Str
drop_part [] = []
drop_part (c ∷ s) = let rest = drop_part s in if c == b'/' then c ∷ s else rest

abbrev parent_of : Str → Option Str
unfolding trim_tail drop_part
parent_of [] = none
parent_of (c ∷ []) = if c == b'/' then none else some []
parent_of (c ∷ d ∷ s) = some (onto (trim_tail (drop_part (c ∷ d ∷ s))) [])

-- `Path::parent`
unfoldable pub parent : Str → Option Str
unfolding trim_tail drop_part
parent path = parent_of (trim_tail (onto path []))

abbrev pub mount : Str → List Str → List Str
mount path args = codes "-v" ∷ (path ++ b':' ∷ path) ∷ args

abbrev pub mount_ro : Str → List Str → List Str
mount_ro path args = codes "-v" ∷ (path ++ b':' ∷ (path ++ codes ":ro")) ∷ args

module _ (m : Machine) (cfg : Config) (h : List Call) where
  abbrev pub harden_args : List Str → List Str
  harden_args args =
      if cfg.harden
      then codes "--cap-drop=all" ∷ codes "--security-opt=no-new-privileges" ∷ args
      else args

  abbrev pub git_args : List Str → List Str
  git_args args =
      if m.is_real_dir h (join cfg.root (codes ".git"))
      then mount_ro (join cfg.root (codes ".git")) args
      else args

  unfoldable pub watch_args : List Str → List Str → List Str
  watch_args [] args = args
  watch_args (entry ∷ entries) args =
      let rest = watch_args entries args in
      if m.exists h (join cfg.root entry) then mount_ro (join cfg.root entry) rest else rest

  abbrev pub watched_args : List Str → List Str
  watched_args args = if cfg.harden then watch_args cfg.watch_files args else args

  unfoldable pub expand_all : List Str → Result CtlError (List Str)
  expand_all [] = ok []
  expand_all (opt ∷ opts) = map_err CtlError.unset_var (expand_with m.lookup opt) >>= λ first.
      expand_all opts >>= λ rest. ok (first ∷ rest)

  abbrev pub default_args : Str → List Str → List Str
  default_args socket_dir args = harden_args (
      codes "-v"
      ∷ codes "/nix:/nix:ro"
      ∷ mount socket_dir (
          mount cfg.root (
            codes "-w"
            ∷ cfg.root
            ∷ mount_ro cfg.cache_dir (mount cfg.log_dir (git_args (watched_args args))))))

  abbrev pub with_socket_dir : Option Str → Result CtlError (List Str)
  with_socket_dir none = err (CtlError.socket_no_parent cfg.socket)
  with_socket_dir (some socket_dir) =
      expand_all cfg.run_opts >>= λ opts. ok (default_args socket_dir opts)

  unfoldable pub build_runtime_args : Result CtlError (List Str)
  unfolding expand_all
  build_runtime_args = with_socket_dir (parent cfg.socket)

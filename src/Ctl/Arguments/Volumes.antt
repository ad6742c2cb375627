-- ===== src/Ctl/Arguments/Volumes.antt =====
-- What a container runtime reads of a launch's options, src/ctl/mod.rs: the mounts.
use nix_capsule.Ctl.Arguments.{mount, mount_ro}
use nix_capsule.Ctl.Layout.{ends_slash, starts_slash, join}
use nix_capsule.Prelude.{
  if◌then◌else◌, Bool-cases, All-append, Str, codes, str_eq, split_once, Lacks, split_once-append,
  ◌≡◌, refl, ◌≢◌, inl, inr, Bool, true, false, Option, none, some, List, [], ◌∷◌, ◌++◌, arith,
}

pub record Mount : Type 0 where
  pub source : Str
  pub target : Str
  pub read_only : Bool

-- The path is mounted at itself.
abbrev pub same_path : Str → Bool → Mount
same_path path read_only = record { source = path; target = path; read_only = read_only }

abbrev flagged : Str → Str → Option Str → Option Mount
flagged source target (some flag) =
    if str_eq flag (codes "ro")
    then some (record { source = source; target = target; read_only = true })
    else none
flagged source target none = none

abbrev targeted : Str → Str → Option (Str × Str) → Option Mount
targeted source rest none = some (record { source = source; target = rest; read_only = false })
targeted source rest (some (target, flag)) = flagged source target (some flag)

abbrev sourced : Option (Str × Str) → Option Mount
sourced none = none
sourced (some (source, rest)) = targeted source rest (split_once b':' rest)

-- The argument of `-v`: `source:target`, or `source:target:ro`.
unfoldable pub read_volume : Str → Option Mount
read_volume text = sourced (split_once b':' text)

-- What the next argument is: an option, or the argument of `-v` or of `-w`.
pub data Next : Type 0 where
  option volume workdir : Next

abbrev with_mount : Option Mount → Option (List Mount) → Option (List Mount)
with_mount (some x) (some mounts) = some (x ∷ mounts)
with_mount _ _ = none

abbrev option_kind : Str → Next
option_kind text =
    if str_eq text (codes "-v")
    then Next.volume
    else if str_eq text (codes "-w")
    then Next.workdir
    else Next.option

abbrev read_next : Next → Str → (Next → Option (List Mount)) → Option (List Mount)
read_next Next.option text later = later (option_kind text)
read_next Next.volume text later = with_mount (read_volume text) (later Next.option)
read_next Next.workdir text later = later Next.option

abbrev finished : Next → Option (List Mount)
finished Next.option = some []
finished _ = none

-- The mounts in their order; other options have no argument of their own.
unfoldable pub read_mounts : List Str → Next → Option (List Mount)
unfolding read_volume
read_mounts [] next = finished next
read_mounts (text ∷ args) next = read_next next text (read_mounts args)

split_once-none : (s : Str) → Lacks b':' s → split_once b':' s ≡ none
split_once-none [] lacks = refl
split_once-none (c ∷ s) lacks = ground (arith, split_once-none s lacks.1)

module _ (path : Str) (plain : Lacks b':' path) where
  pub volume_rw : read_volume (path ++ b':' ∷ path) ≡ some (same_path path false)
  unfolding read_volume
  volume_rw = rw (split_once-append b':' path path plain, split_once-none path plain) refl

  pub volume_ro : read_volume (path ++ b':' ∷ (path ++ codes ":ro")) ≡ some (same_path path true)
  unfolding read_volume
  volume_ro =
      rw
        (
          split_once-append b':' path (path ++ codes ":ro") plain,
          split_once-append b':' path (codes "ro") plain,
        )
        refl

  pub read_mounts-mount :
      (args : List Str) (mounts : List Mount)
      → read_mounts args Next.option ≡ some mounts
      → read_mounts (mount path args) Next.option ≡ some (same_path path false ∷ mounts)
  unfolding read_mounts
  read_mounts-mount args mounts e = rw (volume_rw, e) refl

  pub read_mounts-mount_ro :
      (args : List Str) (mounts : List Mount)
      → read_mounts args Next.option ≡ some mounts
      → read_mounts (mount_ro path args) Next.option ≡ some (same_path path true ∷ mounts)
  unfolding read_mounts
  read_mounts-mount_ro args mounts e = rw (volume_ro, e) refl

pub join-Lacks : (base path : Str) → Lacks b':' base → Lacks b':' path → Lacks b':' (join base path)
unfolding join
join-Lacks base path hb hp = elim (Bool-cases (starts_slash path)) [
  | inl absolute ↦ rw absolute hp
  | inr relative ↦ elim (Bool-cases (ends_slash base)) [
    | inl slash ↦ rw (relative, slash) (All-append (λ c. c ≢ b':') base path hb hp)
    | inr bare ↦
        rw (relative, bare)
          (All-append (λ c. c ≢ b':') base (b'/' ∷ path) hb ((λ e. omega (arith, e)), hp))
  ]
]

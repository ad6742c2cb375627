-- ===== src/Ctl/Stamp.antt =====
-- The project stamp of src/ctl/stamp.rs, which binds a project name to one root.
use nix_capsule.Prelude.{
  ◌==◌, if◌then◌else◌, Bool-cases, Result, ok, err, Str, codes, str_eq, str_eq_sound, str_eq_iff,
  is_empty, ℕ, ◌≡◌, refl, sym, ap, ◌↔◌, inl, inr, Bool, ◌&&◌, ◌||◌, Option, none, some, [], ◌∷◌,
}
use nix_capsule.Prelude.Io.{IoError}
use nix_capsule.Ctl.Layout.{join}

pub data StampError : Type 0 where
  already_claimed : Str → Str → StampError
  create_dir write read : Str → IoError → StampError

-- What `read_to_string` finds at the stamp's path: no file, its text, or another failure.
pub data StampFile : Type 0 where
  absent : StampFile
  holds : Str → StampFile
  unreadable : IoError → StampFile

-- What `create_dir_all` and `fs::write` answer; a write that fails leaves some file.
pub record Disk : Type 0 where
  pub create_dir : Option IoError
  pub write : Option (IoError × StampFile)

-- The result, and the file that is there afterwards.
abbrev Guarded : Type 0
Guarded = Result {0, 0} StampError Unit × StampFile

abbrev is_newline : ℕ → Bool
is_newline c = c == 10 || c == 13

-- `trim_end_matches(['\n', '\r'])`
unfoldable pub trim_newlines : Str → Str
trim_newlines [] = []
trim_newlines (c ∷ s) =
    let rest = trim_newlines s in if is_empty rest && is_newline c then [] else c ∷ rest

unfoldable pub project_stamp_file : Str → Str
project_stamp_file dir = join dir (codes "project")

abbrev claimed : Str → Str → Str → Result {0, 0} StampError Unit
claimed project root existing =
    if str_eq existing root then ok tt else err (StampError.already_claimed project existing)

abbrev stamped : Str → Str → Option (IoError × StampFile) → Guarded
stamped dir root none = (ok tt, StampFile.holds root)
stamped dir root (some (e, file)) = (err (StampError.write (project_stamp_file dir) e), file)

abbrev first_claim : Disk → Str → Str → Option IoError → Guarded
first_claim disk dir root (some e) = (err (StampError.create_dir dir e), StampFile.absent)
first_claim disk dir root none = stamped dir root disk.write

unfoldable pub guard : Disk → Str → Str → Str → StampFile → Guarded
guard disk dir project root (StampFile.holds text) =
    (claimed project root (trim_newlines text), StampFile.holds text)
guard disk dir project root StampFile.absent = first_claim disk dir root disk.create_dir
guard disk dir project root (StampFile.unreadable e) =
    (err (StampError.read (project_stamp_file dir) e), StampFile.unreadable e)

claimed_iff :
    (project root existing : Str) → (claimed project root existing ≡ ok tt) ↔ (existing ≡ root)
claimed_iff project root existing = elim (Bool-cases (str_eq existing root)) [
  | inl same ↦ rw same (λ e. str_eq_sound existing root same, λ e. refl)
  | inr apart ↦ rw apart (λ e. cc, λ e. cc (apart, (str_eq_iff existing root).1 e))
]

stamped_holds :
    (dir root : Str) (o : Option (IoError × StampFile)) (after : StampFile)
    → trim_newlines root ≡ root
    → stamped dir root o ≡ (ok tt, after)
    → (text : Str) × (after ≡ StampFile.holds text) × (trim_newlines text ≡ root)
stamped_holds dir root none after plain e = (root, sym (ap (λ (r : Guarded). r.1) e), plain)
stamped_holds dir root (some (x, file)) after plain e = cc

first_claim_holds :
    (disk : Disk) (dir root : Str) (after : StampFile) (o : Option IoError)
    → trim_newlines root ≡ root
    → first_claim disk dir root o ≡ (ok tt, after)
    → (text : Str) × (after ≡ StampFile.holds text) × (trim_newlines text ≡ root)
first_claim_holds disk dir root after (some x) plain e = cc
first_claim_holds disk dir root after none plain e = stamped_holds dir root disk.write after plain e

-- The file that a successful claim leaves holds the root, once its newlines are trimmed.
claim_holds :
    (disk : Disk) (dir project root : Str) (file after : StampFile)
    → trim_newlines root ≡ root
    → guard disk dir project root file ≡ (ok tt, after)
    → (text : Str) × (after ≡ StampFile.holds text) × (trim_newlines text ≡ root)
unfolding guard
claim_holds disk dir project root (StampFile.holds text) after plain e = (
  text,
  sym (ap (λ (r : Guarded). r.1) e),
  (claimed_iff project root (trim_newlines text)).0 (ap (λ (r : Guarded). r.0) e),
)
claim_holds disk dir project root StampFile.absent after plain e =
    first_claim_holds disk dir root after disk.create_dir plain e
claim_holds disk dir project root (StampFile.unreadable x) after plain e = cc

-- Once a root that ends in no newline has claimed a name, a later guard of that name passes for that
-- root and for no other, whatever the disk does, and leaves the stamp as it is.
pub guard_binds :
    (disk : Disk) (dir project root : Str) (file after : StampFile)
    → trim_newlines root ≡ root
    → guard disk dir project root file ≡ (ok tt, after)
    → (disk' : Disk) (root' : Str)
    → (((guard disk' dir project root' after).0 ≡ ok tt) ↔ (root' ≡ root))
      × ((guard disk' dir project root' after).1 ≡ after)
unfolding guard
guard_binds disk dir project root file after plain e disk' root' =
    let (text, kept, same) = claim_holds disk dir project root file after plain e in
    let (there, back) = claimed_iff project root' root in
    rw (kept, same) ((λ h. sym (there h), λ h. back (sym h)), refl)

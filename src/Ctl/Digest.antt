-- ===== src/Ctl/Digest.antt =====
-- The freshness digest of src/ctl/digest.rs, over a snapshot of the files and with the hash a parameter.
pub mod Sorted
pub mod Fresh
use nix_capsule.Prelude.Chars.{as_bytes, trim, str_lt}
use nix_capsule.Prelude.Io.{ErrorKind, not_found, IoError}
use nix_capsule.Prelude.{
  ltb, if◌then◌else◌, Result, ok, err, ◌>>=◌, Bytes, Str, str_eq, ℕ, zero, suc, ◌+◌, ◌-◌, ◌/◌, ◌%◌,
  Bool, not, List, [], ◌∷◌, ◌++◌,
}
use nix_capsule.Ctl.Layout.{join, cache_dir, env_file, hash_file}

pub data Freshness : Type 0 where
  fresh stale missing : Freshness

-- What the file system says of a path: `Path::is_file`, `fs::read_to_string`, and a `File::open` that is
-- read to its end.
pub record Files : Type 0 where
  pub is_file : Str → Bool
  pub read_to_string : Str → Result IoError Str
  pub read : Str → Result IoError Bytes

-- `Vec::sort` is stable: an entry goes behind those that are not less.
unfoldable pub insert : Str → List Str → List Str
insert x [] = x ∷ []
insert x (y ∷ ys) = let rest = insert x ys in if str_lt y x then y ∷ rest else x ∷ y ∷ ys

unfoldable pub sort : List Str → List Str
unfolding insert
sort [] = []
sort (x ∷ xs) = insert x (sort xs)

abbrev absent_record : Str → ErrorKind → IoError → Result IoError Bytes
absent_record entry ErrorKind.not_found e = ok (as_bytes entry ++ 0 ∷ b'0' ∷ 0 ∷ [])
absent_record entry _ e = err e

-- What one entry feeds to the hasher.
unfoldable pub entry_record : Str → Result IoError Bytes → Result IoError Bytes
entry_record entry (ok contents) = ok (as_bytes entry ++ 0 ∷ b'1' ∷ 0 ∷ contents)
entry_record entry (err e) = absent_record entry e.kind e

-- `{:016x}`
abbrev hex_digit : ℕ → ℕ
hex_digit n = if ltb n 10 then b'0' + n else b'a' + (n - 10)

unfoldable pub hex : ℕ → ℕ → Str
hex zero n = []
hex (suc width) n = hex width (n / 16) ++ hex_digit (n % 16) ∷ []

module _ (hash : Bytes → ℕ) (files : Files) where
  -- The bytes that are hashed, entry by entry.
  unfoldable pub stream : Str → List Str → Result IoError Bytes
  unfolding entry_record
  stream root [] = ok []
  stream root (entry ∷ entries) = entry_record entry (files.read (join root entry)) >>= λ first.
      stream root entries >>= λ rest. ok (first ++ rest)

  unfoldable pub compute : Str → List Str → Result IoError Str
  compute root entries = stream root (sort entries) >>= λ bytes. ok (hex 16 (hash bytes))

  abbrev pub compared : Str → Result IoError Str → Freshness
  compared cached (err e) = stale
  compared cached (ok digest) = if str_eq (trim cached) digest then fresh else stale

  abbrev pub cached_against : Result IoError Str → Result IoError Str → Freshness
  cached_against (err e) digest = stale
  cached_against (ok cached) digest = compared cached digest

  unfoldable pub check : Str → Str → List Str → Freshness
  unfolding compute
  check cache_dir root entries =
      if not (files.is_file (env_file cache_dir))
      then missing
      else cached_against (files.read_to_string (hash_file cache_dir)) (compute root entries)

-- ===== src/Ctl/Flows/Cached.antt =====
-- What `ensure_cache` of src/ctl/mod.rs leaves behind.
use nix_capsule.Ctl.Machine.{Call, Machine, continue_with, ◌>>=◌, ◌>>◌, wrapped, attempt}
use nix_capsule.Ctl.Machine.Logic.{Ensures, continue_then, bind-Ensures}
use nix_capsule.Ctl.Flows.{
  made_dir, written, freshness, digested, refill_cache, unless_fresh, ensure_cache,
}
use nix_capsule.Ctl.Errors.{CtlError}
use nix_capsule.Ctl.Layout.{join, env_file, hash_file, profile_file}
use nix_capsule.Ctl.Digest.{Freshness, Files, insert, sort, stream, compute}
use nix_capsule.Ctl.Digest.Fresh.{compute-solid, compute-ascii, check-fresh_iff}
use nix_capsule.Ctl.Nix.{wipe_args, print_dev_env, wipe_history}
use nix_capsule.Ctl.Config.{Config}
use nix_capsule.Prelude.Io.{IoError}
use nix_capsule.Prelude.Chars.{as_bytes}
use nix_capsule.Prelude.{
  ltb, ◌==◌, &&-left, &&-right, all, Result, ok, err, map_err, ok-injective, Bytes, Str, ℕ, ◌≡◌,
  refl, ap, ◌∙◌, Bool, true, false, not, Option, none, some, List, [], ◌∷◌, arith,
}

-- What is documented of the files. `file_of` numbers the file that a path leads to, links and other
-- spellings of a path resolved, which a write does not change. A write that succeeds makes a file, which reads back as the ASCII text
-- that was written, and leaves other files as they are; wiping the history of a profile
-- leaves the environment dump beside it in place.
pub record Stores (m : Machine) (file_of : Str → ℕ) : Type 0 where
  pub made :
      (h : List Call) (path : Str) (bytes : Bytes)
      → m.write h path bytes ≡ none
      → (m.files (Call.write path bytes ∷ h)).is_file path ≡ true
  pub reads_back :
      (h : List Call) (path text : Str)
      → all (λ c. ltb c 128) text ≡ true
      → m.write h path (as_bytes text) ≡ none
      → (m.files (Call.write path (as_bytes text) ∷ h)).read_to_string path ≡ ok text
  pub kept :
      (h : List Call) (path place : Str) (bytes : Bytes)
      → (file_of place == file_of path) ≡ false
      → (m.files (Call.write path bytes ∷ h)).is_file place ≡ (m.files h).is_file place
  pub unread :
      (h : List Call) (path place : Str) (bytes : Bytes)
      → (file_of place == file_of path) ≡ false
      → (m.files (Call.write path bytes ∷ h)).read place ≡ (m.files h).read place
  pub unwiped :
      (h : List Call) (cache_dir : Str)
      → (m.files (Call.nix (wipe_args (profile_file cache_dir)) ∷ h)).is_file (env_file cache_dir)
        ≡ (m.files h).is_file (env_file cache_dir)

module _ (p : Str → Bool) where
  insert-all : (x : Str) (ys : List Str) → p x ≡ true → all p ys ≡ true → all p (insert x ys) ≡ true
  unfolding insert
  insert-all x [] hx hs = rw (hx, hs) refl
  insert-all x (y ∷ ys) hx hs = ground (arith, insert-all x ys)

  sort-all : (xs : List Str) → all p xs ≡ true → all p (sort xs) ≡ true
  unfolding sort
  sort-all [] h = refl
  sort-all (x ∷ xs) h =
      insert-all x (sort xs) (&&-left (p x) (all p xs) h)
        (sort-all xs (&&-right (p x) (all p xs) h))

not-true : (b : Bool) → not b ≡ true → b ≡ false
not-true true h = cc
not-true false h = refl

-- The digest reads nothing but the watched files.
stream_unread :
    (hash : Bytes → ℕ) (file_of : Str → ℕ) (f g : Files) (root path : Str) (entries : List Str)
    → ((place : Str) → (file_of place == file_of path) ≡ false → f.read place ≡ g.read place)
    → all (λ entry. not (file_of (join root entry) == file_of path)) entries ≡ true
    → stream hash f root entries ≡ stream hash g root entries
unfolding stream
stream_unread hash file_of f g root path [] same apart = refl
stream_unread hash file_of f g root path (entry ∷ entries) same apart =
    let first = &&-left (not (file_of (join root entry) == file_of path)) _ apart in
    let rest = &&-right (not (file_of (join root entry) == file_of path)) _ apart in
    rw
      (
        same (join root entry) (not-true (file_of (join root entry) == file_of path) first),
        stream_unread hash file_of f g root path entries same rest,
      )
      refl

compute_unread :
    (hash : Bytes → ℕ) (file_of : Str → ℕ) (f g : Files) (root path : Str) (entries : List Str)
    → ((place : Str) → (file_of place == file_of path) ≡ false → f.read place ≡ g.read place)
    → all (λ entry. not (file_of (join root entry) == file_of path)) entries ≡ true
    → compute hash f root entries ≡ compute hash g root entries
unfolding compute
compute_unread hash file_of f g root path entries same apart =
    rw
      (stream_unread hash file_of f g root path (sort entries) same
        (sort-all (λ entry. not (file_of (join root entry) == file_of path)) entries apart))
      refl

map_err-eq_ok :
    {D E A : Type 0} (f : D → E) (r : Result D A) {a : A} → map_err f r ≡ ok a → r ≡ ok a
map_err-eq_ok f (ok b) e = ap ok (ok-injective e)
map_err-eq_ok f (err x) e = cc

attempted :
    {E : Type 0} (f : IoError → E) (c : Call) (r : Option IoError) (h : List Call) (a : Unit {0})
    → (attempt f c r h).0 ≡ ok a
    → (r ≡ none) × ((attempt f c r h).1 ≡ c ∷ h)
attempted f c none h a e = (refl, refl)
attempted f c (some x) h a e = cc

-- No watched file is the digest file, whatever the two are called.
abbrev pub Apart : Config → (Str → ℕ) → Type 0
Apart cfg file_of =
    all (λ entry. not (file_of (join cfg.root entry) == file_of (hash_file cfg.cache_dir)))
      cfg.watch_files
    ≡ true

module _ (m : Machine) (cfg : Config) (file_of : Str → ℕ) (store : Stores m file_of)
    (dump_apart : (file_of (env_file cfg.cache_dir) == file_of (hash_file cfg.cache_dir))
      ≡ false) where
  Fresh : List Call → Type 0
  Fresh h = freshness m cfg h ≡ Freshness.fresh

  stored-Fresh :
      (h : List Call) (digest : Str) (a : Unit {0})
      → Apart cfg file_of
      → (m.files h).is_file (env_file cfg.cache_dir) ≡ true
      → compute m.hash (m.files h) cfg.root cfg.watch_files ≡ ok digest
      → (written m (hash_file cfg.cache_dir) (as_bytes digest) h).0 ≡ ok a
      → Fresh (written m (hash_file cfg.cache_dir) (as_bytes digest) h).1
  unfolding Fresh
  stored-Fresh h digest a apart env done e =
      let (taken, made) = attempted _ _ _ h a e in
      let path = hash_file cfg.cache_dir in
      let after = Call.write path (as_bytes digest) ∷ h in
      rw made (
        (check-fresh_iff m.hash (m.files after) cfg.cache_dir cfg.root cfg.watch_files).1 (
          store.kept h path (env_file cfg.cache_dir) (as_bytes digest) dump_apart ∙ env,
          (
            digest,
            store.reads_back h path digest
                (compute-ascii m.hash (m.files h) cfg.root cfg.watch_files done) taken,
            rw
                (
                  compute-solid m.hash (m.files h) cfg.root cfg.watch_files done,
                  compute_unread m.hash file_of (m.files after) (m.files h) cfg.root path
                      cfg.watch_files (λ place. store.unread h path place (as_bytes digest)) apart,
                )
                done,
          ),
        ))

  digested-Fresh :
      (h : List Call) (r : Result CtlError Str) (a : Unit {0})
      → Apart cfg file_of
      → (m.files h).is_file (env_file cfg.cache_dir) ≡ true
      → (digested m cfg h).0 ≡ r
      → (continue_with (λ digest. written m (hash_file cfg.cache_dir) (as_bytes digest)) (r, h)).0
        ≡ ok a
      → Fresh
          (continue_with (λ digest. written m (hash_file cfg.cache_dir) (as_bytes digest)) (r, h)).1
  digested-Fresh h (ok digest) a apart env at e =
      stored-Fresh h digest a apart env (map_err-eq_ok CtlError.digest _ at) e
  digested-Fresh h (err x) a apart env at e = cc

  -- From the dump on.
  env_written-Fresh :
      (h : List Call) (output : Bytes) (a b : Unit {0})
      → Apart cfg file_of
      → (written m (env_file cfg.cache_dir) output h).0 ≡ ok b
      → let rest =
          wipe_history m (profile_file cfg.cache_dir)
          >> (digested m cfg >>= λ digest. written m (hash_file cfg.cache_dir) (as_bytes digest)) in
        let t = (written m (env_file cfg.cache_dir) output h).1 in
        (rest t).0 ≡ ok a → Fresh (rest t).1
  unfolding wipe_history
  env_written-Fresh h output a b apart w e =
      let (taken, made) = attempted _ _ _ h b w in
      let t = (written m (env_file cfg.cache_dir) output h).1 in
      digested-Fresh (Call.nix (wipe_args (profile_file cfg.cache_dir)) ∷ t) _ a apart
        (store.unwiped t cfg.cache_dir
          ∙ rw made (store.made h (env_file cfg.cache_dir) output taken))
        refl e

  refilled-Fresh : Apart cfg file_of → Ensures Fresh (refill_cache m cfg)
  unfolding refill_cache
  refilled-Fresh apart = bind-Ensures Fresh (made_dir m cfg.cache_dir) _ (λ _.
      bind-Ensures Fresh
        (wrapped CtlError.print_dev_env (print_dev_env m (profile_file cfg.cache_dir) cfg.devshell))
        _
        (λ output h a.
          continue_then Fresh _ (written m (env_file cfg.cache_dir) output h).0
            (written m (env_file cfg.cache_dir) output h).1 a
            (λ b w. env_written-Fresh h output a b apart w)))

  unless_fresh-Fresh :
      (h : List Call) (f : Freshness) (a : Unit {0})
      → Apart cfg file_of
      → freshness m cfg h ≡ f
      → (unless_fresh m cfg f h).0 ≡ ok a
      → Fresh (unless_fresh m cfg f h).1
  unfolding Fresh
  unless_fresh-Fresh h Freshness.fresh a apart at e = at
  unless_fresh-Fresh h Freshness.stale a apart at e = refilled-Fresh apart h a e
  unless_fresh-Fresh h Freshness.missing a apart at e = refilled-Fresh apart h a e

  -- When neither the dump nor a watched file is the digest file, by any name, and `ensure_cache` succeeds, the
  -- cache is fresh from then on: the next check would find it so.
  pub ensure_cache-fresh :
      Apart cfg file_of
      → (h : List Call) (a : Unit {0}) → (ensure_cache m cfg h).0 ≡ ok a
      → freshness m cfg (ensure_cache m cfg h).1 ≡ Freshness.fresh
  unfolding ensure_cache Fresh
  ensure_cache-fresh apart h a e = unless_fresh-Fresh h (freshness m cfg h) a apart refl e

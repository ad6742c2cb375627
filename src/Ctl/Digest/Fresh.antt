-- ===== src/Ctl/Digest/Fresh.antt =====
-- When src/ctl/digest.rs calls the cached environment fresh.
use nix_capsule.Prelude.Decimal.{all-append}
use nix_capsule.Ctl.Digest.{
  Freshness, Files, sort, hex_digit, hex, stream, compute, compared, check,
}
use nix_capsule.Ctl.Layout.{cache_dir, env_file, hash_file}
use nix_capsule.Prelude.Io.{IoError}
use nix_capsule.Prelude.Chars.{is_whitespace, trim, trim-solid}
use nix_capsule.Prelude.{
  ltb, Bool-cases, all, Result, ok, err, Result-cases, ok-injective, >>=-eq-ok, Bytes, Str, str_eq,
  str_eq_sound, str_eq_iff, ℕ, zero, suc, ◌/◌, ◌%◌, ◌<◌, ◌≡◌, refl, sym, ap, ◌↔◌, inl, inr, Bool,
  true, not, List, arith,
}

hex_digit-solid : (n : ℕ) → n < 16 → not (is_whitespace (hex_digit n)) ≡ true
hex_digit-solid n h = ground arith

hex_digit-ascii : (n : ℕ) → n < 16 → ltb (hex_digit n) 128 ≡ true
hex_digit-ascii n h = ground arith

module _ (p : ℕ → Bool) (each : (n : ℕ) → n < 16 → p (hex_digit n) ≡ true) where
  hex-all : (width n : ℕ) → all p (hex width n) ≡ true
  unfolding hex
  hex-all zero n = refl
  hex-all (suc width) n =
      all-append p (hex width (n / 16)) _ (hex-all width (n / 16))
        (rw (each (n % 16) (omega arith)) refl)

module _ (hash : Bytes → ℕ) (files : Files) where
  -- A digest is text without white space, so that trimming a stored digest changes nothing.
  pub compute-solid :
      (root : Str) (entries : List Str) {digest : Str}
      → compute hash files root entries ≡ ok digest
      → trim digest ≡ digest
  unfolding compute
  compute-solid root entries {digest} e =
      let (bytes, _, made) = >>=-eq-ok (stream hash files root (sort entries)) _ e in
      rw (← ok-injective made) (
        trim-solid (hex 16 (hash bytes))
          (hex-all (λ c. not (is_whitespace c)) hex_digit-solid 16 (hash bytes)))

  pub compute-ascii :
      (root : Str) (entries : List Str) {digest : Str}
      → compute hash files root entries ≡ ok digest
      → all (λ c. ltb c 128) digest ≡ true
  unfolding compute
  compute-ascii root entries {digest} e =
      let (bytes, _, made) = >>=-eq-ok (stream hash files root (sort entries)) _ e in
      rw (← ok-injective made) (hex-all (λ c. ltb c 128) hex_digit-ascii 16 (hash bytes))

  compared_iff :
      (cached : Str) (r : Result IoError Str)
      → (compared hash files cached r ≡ Freshness.fresh) ↔ (r ≡ ok (trim cached))
  compared_iff cached (err e) = (λ h. cc, λ h. cc)
  compared_iff cached (ok digest) = elim (Bool-cases (str_eq (trim cached) digest)) [
    | inl same ↦ rw same (λ h. ap ok (sym (str_eq_sound (trim cached) digest same)), λ h. refl)
    | inr apart ↦
        rw apart
          (λ h. cc, λ h. cc (apart, (str_eq_iff (trim cached) digest).1 (sym (ok-injective h))))
  ]

  -- The cache is fresh exactly when the environment dump is a file, and the stored digest can be read
  -- and is, once trimmed, the digest of the watched files, which can all be read or are absent.
  pub check-fresh_iff :
      (cache_dir root : Str) (entries : List Str)
      → (check hash files cache_dir root entries ≡ Freshness.fresh) ↔ (
          (files.is_file (env_file cache_dir) ≡ true)
          × ((cached : Str) × (files.read_to_string (hash_file cache_dir) ≡ ok cached)
              × (compute hash files root entries ≡ ok (trim cached))))
  unfolding check
  check-fresh_iff cache_dir root entries = elim (Bool-cases (files.is_file (env_file cache_dir))) [
    | inr no_env ↦ rw no_env (λ h. cc, λ h. cc)
    | inl env ↦ elim (Result-cases (files.read_to_string (hash_file cache_dir))) [
      | inr (e, unread) ↦ rw (env, unread) (λ h. cc, λ h. cc)
      | inl (cached, read) ↦
          rw (env, read)
            (
              λ h. (
                refl,
                (cached, refl, (compared_iff cached (compute hash files root entries)).0 h),
              ),
              λ h.
                  (compared_iff cached (compute hash files root entries)).1
                    (rw (ok-injective h.1.1) h.1.2),
            )
    ]
  ]

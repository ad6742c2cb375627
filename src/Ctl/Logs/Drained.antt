-- ===== src/Ctl/Logs/Drained.antt =====
-- What the follow loop of src/ctl/mod.rs prints of a log.
use nix_capsule.Ctl.Logs.{on_read, drain_open, drain_log, log}
use nix_capsule.Ctl.Machine.{Call, Machine, Program}
use nix_capsule.Ctl.Errors.{CtlError}
use nix_capsule.Prelude.{
  length, take, drop, length-take, length-drop, Result, ok, Bytes, Str, ℕ, zero, suc, ◌+◌, ◌≤◌, ◌<◌,
  ◌≡◌, refl, ap, ◌∙◌, none, List, [], ◌∷◌, ◌++◌, append-nil, append_assoc, arith,
}

-- All that was written to stdout, in its order.
abbrev pub printed_before : Call → Bytes
printed_before (Call.print bytes) = bytes
printed_before _ = []

unfoldable pub printed : List Call → Bytes
printed [] = []
printed (c ∷ h) = printed h ++ printed_before c

-- The log stays as it is, a read takes at most `size` bytes of what follows the position, and stdout takes
-- what is written.
pub record Settled (m : Machine) (path : Str) (size : ℕ) (bytes : Bytes) : Type 0 where
  pub reads : (h : List Call) (pos : ℕ) → m.read_at h path pos ≡ ok (take size (drop pos bytes))
  pub opens : (h : List Call) → m.opens h path ≡ none
  pub taken : (h : List Call) (written : Bytes) → m.stdout h written ≡ none

module _ {A : Type 0} where
  drop-nil : (n : ℕ) → ◌≡◌ {A = List A} (drop n []) []
  drop-nil zero = refl
  drop-nil (suc n) = refl

  drop-drop : (m n : ℕ) (xs : List A) → drop n (drop m xs) ≡ drop (m + n) xs
  drop-drop zero n xs = let same : 0 + n ≡ n = omega arith in rw same refl
  drop-drop (suc m) n [] = rw (drop-nil n, drop-nil (suc m + n)) refl
  drop-drop (suc m) n (x ∷ xs) =
      let same : suc m + n ≡ suc (m + n) = omega arith in rw same (drop-drop m n xs)

  take-append_rest : (n : ℕ) (xs : List A) → take n xs ++ drop (length (take n xs)) xs ≡ xs
  take-append_rest zero xs = refl
  take-append_rest (suc n) [] = refl
  take-append_rest (suc n) (x ∷ xs) = ap (λ t. x ∷ t) (take-append_rest n xs)

  empty-length : (xs : List A) → length xs ≡ 0 → xs ≡ []
  empty-length [] e = refl
  empty-length (x ∷ xs) e = absurd (omega (arith, e))

module _ (m : Machine) (path : Str) (size : ℕ) (bytes : Bytes)
    (log : Settled m path size bytes) where
  Drains : ℕ → List Call → Result CtlError ℕ × List Call → Type 0
  Drains pos h r = (r.0 ≡ ok (length bytes)) × (printed r.1 ≡ printed h ++ drop pos bytes)

  on_read-Drains :
      (pos : ℕ) (h : List Call) (chunk : Bytes) (again : ℕ → Program CtlError ℕ)
      → (length chunk ≡ 0 → (pos ≡ length bytes) × (drop pos bytes ≡ []))
      → chunk ++ drop (pos + length chunk) bytes ≡ drop pos bytes
      → (0 < length chunk
          → (t : List Call) → Drains (pos + length chunk) t (again (pos + length chunk) t))
      → Drains pos h (on_read m path pos again (ok chunk) h)
  unfolding Drains printed
  on_read-Drains pos h [] again end split later =
      let (at_end, rest) = end refl in (ap ok at_end, rw (rest, append-nil (printed h)) refl)
  on_read-Drains pos h (b ∷ chunk) again end split later =
      let (done, all_printed) = later (omega arith) (Call.print (b ∷ chunk) ∷ h) in
      rw (log.taken h (b ∷ chunk)) (
        done,
        all_printed ∙ append_assoc (printed h) (b ∷ chunk) _ ∙ ap (λ t. printed h ++ t) split,
      )

  drain_open-Drains :
      (fuel pos : ℕ) (h : List Call)
      → 0 < size
      → pos ≤ length bytes
      → length bytes < pos + fuel
      → Drains pos h (drain_open m path fuel pos h)
  unfolding drain_open
  drain_open-Drains zero pos h some_size small enough = absurd (omega (arith, small, enough))
  drain_open-Drains (suc fuel) pos h some_size small enough =
      let rest = drop pos bytes in
      let chunk = take size rest in
      let measured = length-take size rest in
      let left = length-drop pos bytes in
      rw (log.reads h pos) (
        on_read-Drains pos h chunk (drain_open m path fuel)
          (λ none_read. (
            omega (arith, none_read, measured, left, some_size, small),
            empty-length rest (omega (arith, none_read, measured, some_size)),
          ))
          (rw (← drop-drop pos (length chunk) bytes) (take-append_rest size rest))
          (λ more t.
            drain_open-Drains fuel (pos + length chunk) t some_size
              (omega (arith, measured, left, small)) (omega (arith, more, enough))))

-- Of a log that stays as it is, a drain prints exactly the bytes behind the position, in order and once,
-- and leaves the position at the log's end, when stdout takes what is written; fuel of more than the bytes
-- that are left is enough.
pub drain_log_prints :
    (m : Machine) (path : Str) (size : ℕ) (bytes : Bytes) (fuel pos : ℕ) (h : List Call)
    → Settled m path size bytes
    → 0 < size
    → pos ≤ length bytes
    → length bytes < pos + fuel
    → ((drain_log m path fuel pos h).0 ≡ ok (length bytes))
      × (printed (drain_log m path fuel pos h).1 ≡ printed h ++ drop pos bytes)
unfolding drain_log Drains
drain_log_prints m path size bytes fuel pos h log some_size small enough =
    rw (log.opens h) (drain_open-Drains m path size bytes log fuel pos h some_size small enough)

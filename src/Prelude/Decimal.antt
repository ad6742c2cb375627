-- ===== src/Prelude/Decimal.antt =====
-- Decimal text of an unsigned integer (`{}` and `{:0w}` of `format!`), and the parse of digits into a
-- `u64` (`str::parse`).
use nix_capsule.Prelude.{
  ltb, leb, ◌==◌, if◌then◌else◌, ltb→lt, Bool-cases, all, Result, ok, err, Str, is_empty,
  is_ascii_digit, ℕ, zero, suc, ◌+◌, ◌-◌, ◌*◌, ◌/◌, ◌%◌, ◌^◌, ◌≤◌, ◌<◌, ◌≡◌, refl, ◌∙◌, inl, inr,
  Bool, true, false, not, ◌&&◌, Option, none, some, [], ◌∷◌, ◌++◌, arith,
}

-- The digits of `n`, on fuel; `n` digits are more than enough.
unfoldable pub digits : ℕ → ℕ → Str
digits zero n = []
digits (suc fuel) n =
    let rest = digits fuel (n / 10) in
    if ltb n 10 then (b'0' + n) ∷ [] else rest ++ (b'0' + n % 10) ∷ []

unfoldable pub to_decimal : ℕ → Str
unfolding digits
to_decimal n = digits (suc n) n

abbrev pub max_u64 : ℕ
max_u64 = 2 ^ 64 - 1

-- `acc` is what the digits before spelled; `none` is an overflow or a byte that is no digit.
unfoldable pub scan : Str → ℕ → Option ℕ
scan [] acc = some acc
scan (c ∷ s) acc =
    let rest = scan s (acc * 10 + (c - b'0')) in
    if is_ascii_digit c && leb (acc * 10 + (c - b'0')) max_u64 then rest else none

scan-append : (s t : Str) (acc n : ℕ) → scan s acc ≡ some n → scan (s ++ t) acc ≡ scan t n
unfolding scan
scan-append [] t acc n e = ground arith
scan-append (c ∷ s) t acc n e = ground (arith, scan-append s t (acc * 10 + (c - b'0')) n)

-- One digit behind digits that spell `n / 10`.
scan_last : (n : ℕ) → n ≤ max_u64 → scan ((b'0' + n % 10) ∷ []) (n / 10) ≡ some n
unfolding scan
scan_last n h = ground arith

scan_digit : (n : ℕ) → n < 10 → n ≤ max_u64 → scan ((b'0' + n) ∷ []) 0 ≡ some n
unfolding scan
scan_digit n h fits = ground arith

scan-digits : (fuel n : ℕ) → n < fuel → n ≤ max_u64 → scan (digits fuel n) 0 ≡ some n
unfolding digits
scan-digits zero n h fits = absurd (omega arith)
scan-digits (suc fuel) n h fits = elim (Bool-cases (ltb n 10)) [
  | inl small ↦ rw small (scan_digit n (ltb→lt n 10 small) fits)
  | inr large ↦ rw large (
      scan-append (digits fuel (n / 10)) _ 0 (n / 10)
        (scan-digits fuel (n / 10) (ground arith) (omega arith))
      ∙ scan_last n fits)
]

pub all-append :
    (p : ℕ → Bool) (s t : Str) → all p s ≡ true → all p t ≡ true → all p (s ++ t) ≡ true
all-append p [] t hs ht = ht
all-append p (c ∷ s) t hs ht = ground (arith, all-append p s t)

pub digits-all : (fuel n : ℕ) → all is_ascii_digit (digits fuel n) ≡ true
unfolding digits
digits-all zero n = refl
digits-all (suc fuel) n = elim (Bool-cases (ltb n 10)) [
  | inl small ↦ ground arith
  | inr large ↦
      rw large (
        all-append is_ascii_digit (digits fuel (n / 10)) _ (digits-all fuel (n / 10))
          (ground arith))
]

-- What `format!` prints of a `u64`, the parse reads back.
pub scan-to_decimal : (n : ℕ) → n ≤ max_u64 → scan (to_decimal n) 0 ≡ some n
unfolding to_decimal
scan-to_decimal n h = scan-digits (suc n) n (omega arith) h

pub to_decimal-all : (n : ℕ) → all is_ascii_digit (to_decimal n) ≡ true
unfolding to_decimal
to_decimal-all n = digits-all (suc n) n

nonempty-append_cons : (s : Str) (c : ℕ) → is_empty (s ++ c ∷ []) ≡ false
nonempty-append_cons [] c = refl
nonempty-append_cons (d ∷ s) c = refl

pub to_decimal_nonempty : (n : ℕ) → is_empty (to_decimal n) ≡ false
unfolding to_decimal digits
to_decimal_nonempty n = elim (Bool-cases (ltb n 10)) [
  | inl small ↦ rw small
  | inr large ↦ rw large (nonempty-append_cons (digits n (n / 10)) _)
]

-- `ParseIntError`
pub data IntError : Type 0 where
  empty invalid_digit pos_overflow : IntError

unfoldable pub scan_u64 : Str → ℕ → Result IntError ℕ
scan_u64 [] acc = ok acc
scan_u64 (c ∷ s) acc =
    let rest = scan_u64 s (acc * 10 + (c - b'0')) in
    if not (is_ascii_digit c)
    then err IntError.invalid_digit
    else if leb (acc * 10 + (c - b'0')) max_u64
    then rest
    else err IntError.pos_overflow

-- `str::parse::<u64>`: a `+` may stand in front of the digits.
unfoldable pub parse_u64 : Str → Result IntError ℕ
parse_u64 [] = err IntError.empty
parse_u64 (c ∷ []) = if c == b'+' then err IntError.invalid_digit else scan_u64 (c ∷ []) 0
parse_u64 (c ∷ d ∷ s) = if c == b'+' then scan_u64 (d ∷ s) 0 else scan_u64 (c ∷ d ∷ s) 0

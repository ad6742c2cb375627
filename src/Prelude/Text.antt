-- ===== src/Prelude/Text.antt =====
-- Text: a Rust `String` is the list of its code points, a byte string the list of its bytes.
use Prim.Native.Nat.{ℕ}
use Prim.Native.Char.{code}
use Prim.Native.String.{String}
use mathlib.Core.Path.{◌≡◌, refl}
use mathlib.Core.Logic.{◌↔◌, ◌≢◌, inl, inr}
use mathlib.Core.Bool.{Bool, true, false, ◌&&◌, ◌||◌}
use mathlib.Core.Option.{Option, none, some}
use mathlib.Core.List.{List, [], ◌∷◌, ◌++◌}
use native.Mathlib.Omega.{arith}
use nix_capsule.Prelude.Tests.{leb, ◌==◌, if◌then◌else◌, Bool-cases, Option-cases}
use nix_capsule.Prelude.Lists.{All}

abbrev pub Bytes : Type 0
Bytes = List ℕ

abbrev pub Str : Type 0
Str = List ℕ

-- The code points of a literal: its bytes, if it is ASCII.
abbrev pub codes : String → Str
codes String.[] = []
codes (String.◌∷◌ c s) = code c ∷ codes s

-- `==` on strings.
abbrev pub str_eq : Str → Str → Bool
str_eq [] [] = true
str_eq [] (d ∷ t) = false
str_eq (c ∷ s) [] = false
str_eq (c ∷ s) (d ∷ t) = c == d && str_eq s t

pub str_eq_sound : (s t : Str) → str_eq s t ≡ true → s ≡ t
str_eq_sound [] [] h = refl
str_eq_sound [] (d ∷ t) h = cc
str_eq_sound (c ∷ s) [] h = cc
str_eq_sound (c ∷ s) (d ∷ t) h = ground (arith, str_eq_sound s t)

pub str_eq_self : (s : Str) → str_eq s s ≡ true
str_eq_self [] = refl
str_eq_self (c ∷ s) = ground (arith, str_eq_self s)

pub str_eq_iff : (s t : Str) → (str_eq s t ≡ true) ↔ (s ≡ t)
str_eq_iff s t = (str_eq_sound s t, λ e. ground (arith, str_eq_self s))

abbrev pub is_empty {ℓ} : {A : Type ℓ} → List A → Bool
is_empty [] = true
is_empty (x ∷ xs) = false

-- `char::is_ascii_digit`, `is_ascii_alphabetic`, `is_ascii_alphanumeric`.
abbrev pub is_ascii_digit : ℕ → Bool
is_ascii_digit c = leb b'0' c && leb c b'9'

abbrev pub is_ascii_alphabetic : ℕ → Bool
is_ascii_alphabetic c = leb b'a' c && leb c b'z' || leb b'A' c && leb c b'Z'

abbrev pub is_ascii_alphanumeric : ℕ → Bool
is_ascii_alphanumeric c = is_ascii_alphabetic c || is_ascii_digit c

-- `str::split_once(c)`: the text before and behind the first `c`.
abbrev pub split_once : ℕ → Str → Option (Str × Str)
split_once sep [] = none
split_once sep (c ∷ s) =
    let rest = split_once sep s in
    if c == sep then some ([], s) else elim rest [ none ↦ none | some (k, v) ↦ some (c ∷ k, v) ]

abbrev pub Lacks : ℕ → Str → Type 0
Lacks sep = All (λ c. c ≢ sep)

pub split_once-append :
    (sep : ℕ) (k v : Str) → Lacks sep k → split_once sep (k ++ sep ∷ v) ≡ some (k, v)
split_once-append sep [] v h = ground arith
split_once-append sep (c ∷ k) v h = ground (arith, split_once-append sep k v h.1)

pub split_once_sound :
    (sep : ℕ) (s : Str) {k v : Str}
    → split_once sep s ≡ some (k, v)
    → Lacks sep k × (s ≡ k ++ sep ∷ v)
split_once_sound sep [] e = cc
split_once_sound sep (c ∷ s) {k} {v} e = elim (Bool-cases (c == sep)) [
  | inl here ↦ ground arith
  | inr later ↦ elim (Option-cases (split_once sep s)) [
    | inl nothing ↦ ground arith
    | inr ((k', v'), found) ↦ ground (arith, split_once_sound sep s {k = k'} {v = v'} found)
  ]
]

-- `str::strip_prefix` and `str::strip_suffix`.
abbrev pub strip_prefix : Str → Str → Option Str
strip_prefix [] s = some s
strip_prefix (p ∷ ps) [] = none
strip_prefix (p ∷ ps) (c ∷ s) = if p == c then strip_prefix ps s else none

abbrev pub strip_suffix : Str → Str → Option Str
strip_suffix suf [] = if str_eq suf [] then some [] else none
strip_suffix suf (c ∷ s) =
    let rest = strip_suffix suf s in
    if str_eq (c ∷ s) suf then some [] else elim rest [ none ↦ none | some r ↦ some (c ∷ r) ]

pub strip_prefix-append : (p s : Str) → strip_prefix p (p ++ s) ≡ some s
strip_prefix-append [] s = refl
strip_prefix-append (c ∷ p) s = ground (arith, strip_prefix-append p s)

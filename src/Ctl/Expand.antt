-- ===== src/Ctl/Expand.antt =====
-- The expansion of `$NAME` and `${NAME}` in a run option, `expand_with` of src/ctl/mod.rs.
pub mod Pieces
pub mod Print
use nix_capsule.Prelude.{
  ◌==◌, if◌then◌else◌, length, all, Result, ok, err, Str, codes, is_ascii_alphabetic,
  is_ascii_alphanumeric, ℕ, zero, suc, Bool, false, not, ◌&&◌, ◌||◌, Option, none, some, [], ◌∷◌,
  ◌++◌,
}

-- A character of a name behind the first, and the first.
abbrev pub is_name_char : ℕ → Bool
is_name_char c = is_ascii_alphanumeric c || c == b'_'

abbrev pub is_name_start : ℕ → Bool
is_name_start c = is_ascii_alphabetic c || c == b'_'

unfoldable pub is_env_name : Str → Bool
is_env_name [] = false
is_env_name (c ∷ name) = is_name_start c && all is_name_char name

abbrev until_cons : ℕ → Str × Option Str → Str × Option Str
until_cons c (name, rest) = (c ∷ name, rest)

-- The loop of `expand_braced`: the name before the first `}`, and the text behind that brace, if there
-- is one.
unfoldable pub until_brace : Str → Str × Option Str
until_brace [] = ([], none)
until_brace (c ∷ s) =
    let rest = until_brace s in if c == b'}' then ([], some s) else until_cons c rest

-- The loop of `expand_unbraced`: the name, and the text behind it.
unfoldable pub span_name : Str → Str × Str
span_name [] = ([], [])
span_name (c ∷ s) =
    let rest = span_name s in if is_name_char c then (c ∷ rest.0, rest.1) else ([], c ∷ s)

-- `match lookup(&name)`; the error is the name of `CtlError::UnsetVar`.
unfoldable pub value_or_unset : Str → Option Str → Result Str Str
value_or_unset name (some val) = ok val
value_or_unset name none = err name

abbrev pub behind : Option Str → Str
behind none = []
behind (some rest) = rest

abbrev pub starts_name : Str → Bool
starts_name [] = false
starts_name (c ∷ s) = is_name_start c

abbrev pub starts_brace : Str → Bool
starts_brace [] = false
starts_brace (c ∷ s) = c == b'{'

abbrev pub tail : Str → Str
tail [] = []
tail (c ∷ s) = s

abbrev pub pushed : Str → Result Str Str → (Str → Result Str Str) → Result Str Str
pushed out (ok val) go = go (out ++ val)
pushed out (err name) go = err name

module _ (lookup : Str → Option Str) where
  -- What `expand_braced` pushes for the name and the text behind its brace.
  unfoldable pub expand_braced : Str → Option Str → Result Str Str
  unfolding value_or_unset
  expand_braced name none = ok (codes "${" ++ name)
  expand_braced [] (some rest) = ok (codes "${}")
  expand_braced (c ∷ name) (some rest) =
      if not (is_env_name (c ∷ name))
      then ok (codes "${" ++ ((c ∷ name) ++ b'}' ∷ []))
      else value_or_unset (c ∷ name) (lookup (c ∷ name))

  -- What follows a `$`: the text it pushes, and what is left of the input.
  unfoldable pub expand_dollar : Str → Result Str Str × Str
  expand_dollar s =
      if starts_brace s
      then (
        expand_braced (until_brace (tail s)).0 (until_brace (tail s)).1,
        behind (until_brace (tail s)).1,
      )
      else if starts_name s
      then (value_or_unset (span_name s).0 (lookup (span_name s).0), (span_name s).1)
      else (ok (b'$' ∷ []), s)

  -- The loop of `expand_with` on fuel, with the text pushed so far.
  unfoldable pub expand_loop : ℕ → Str → Str → Result Str Str
  expand_loop zero out s = ok out
  expand_loop (suc fuel) out [] = ok out
  expand_loop (suc fuel) out (c ∷ s) =
      let plain = expand_loop fuel (out ++ c ∷ []) s in
      let piece = expand_dollar s in
      let dollar = pushed out piece.0 (λ out. expand_loop fuel out piece.1) in
      if not (c == b'$') then plain else dollar

  -- Each turn takes a character at least.
  unfoldable pub expand_with : Str → Result Str Str
  expand_with input = expand_loop (length input) [] input

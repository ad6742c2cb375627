-- ===== src/Ctl/Expand/Pieces.antt =====
-- What `expand_with` of src/ctl/mod.rs makes of a text that is put together from its forms.
use nix_capsule.Prelude.{
  ◌==◌, &&-left, &&-right, ==-false, all, Result, ok, ◌>>=◌, Str, Lacks, ℕ, ◌≡◌, refl, ◌≢◌, Bool,
  true, false, Option, none, some, List, [], ◌∷◌, ◌++◌, arith,
}
use nix_capsule.Ctl.Expand.{
  is_name_char, is_name_start, is_env_name, until_brace, span_name, value_or_unset, starts_name,
  starts_brace, expand_braced, expand_dollar,
}

-- The forms of a run option: a character other than `$`, `${name}`, `$name`, `${body}` where the body is
-- no name, `${body` without a brace behind it, and a `$` that starts none of these.
pub data Piece : Type 0 where
  literal : ℕ → Piece
  braced bare odd unclosed : Str → Piece
  lone : Piece

abbrev pub spelled : Piece → Str
spelled (literal c) = c ∷ []
spelled (braced name) = b'$' ∷ b'{' ∷ (name ++ b'}' ∷ [])
spelled (bare name) = b'$' ∷ name
spelled (odd body) = b'$' ∷ b'{' ∷ (body ++ b'}' ∷ [])
spelled (unclosed body) = b'$' ∷ b'{' ∷ body
spelled lone = b'$' ∷ []

abbrev pub print : List Piece → Str
print [] = []
print (p ∷ ps) = spelled p ++ print ps

abbrev pub starts_name_char : Str → Bool
starts_name_char [] = false
starts_name_char (c ∷ s) = is_name_char c

-- A piece says what it claims to be, given the text behind it.
abbrev pub Fits : Piece → Str → Type 0
Fits (literal c) rest = c ≢ b'$'
Fits (braced name) rest = is_env_name name ≡ true
Fits (bare name) rest = (is_env_name name ≡ true) × (starts_name_char rest ≡ false)
Fits (odd body) rest = Lacks b'}' body × (is_env_name body ≡ false)
Fits (unclosed body) rest = Lacks b'}' body × (rest ≡ [])
Fits lone rest = (starts_brace rest ≡ false) × (starts_name rest ≡ false)

abbrev pub Proper : List Piece → Type 0
Proper [] = Unit
Proper (p ∷ ps) = Fits p (print ps) × Proper ps

module _ (lookup : Str → Option Str) where
  -- A name is replaced by its value, and everything else stays as it is spelled.
  abbrev pub value : Piece → Result Str Str
  value (braced name) = value_or_unset name (lookup name)
  value (bare name) = value_or_unset name (lookup name)
  value p = ok (spelled p)

  -- The values in order behind `out`, or the first name that is not set.
  abbrev pub meaning : Str → List Piece → Result Str Str
  meaning out [] = ok out
  meaning out (p ∷ ps) = value p >>= λ v. meaning (out ++ v) ps

until_brace-closed :
    (name rest : Str) → Lacks b'}' name → until_brace (name ++ b'}' ∷ rest) ≡ (name, some rest)
unfolding until_brace
until_brace-closed [] rest h = refl
until_brace-closed (c ∷ name) rest h = rw (==-false c b'}' h.0, until_brace-closed name rest h.1)

until_brace-open : (name : Str) → Lacks b'}' name → until_brace name ≡ (name, none)
unfolding until_brace
until_brace-open [] h = refl
until_brace-open (c ∷ name) h = rw (==-false c b'}' h.0, until_brace-open name h.1)

name_char-Lacks : (c : ℕ) → is_name_char c ≡ true → c ≢ b'}'
name_char-Lacks c h = ground arith

all_name-Lacks : (name : Str) → all is_name_char name ≡ true → Lacks b'}' name
all_name-Lacks [] h = tt
all_name-Lacks (c ∷ name) h = (
  name_char-Lacks c (&&-left (is_name_char c) (all is_name_char name) h),
  all_name-Lacks name (&&-right (is_name_char c) (all is_name_char name) h),
)

start-name_char : (c : ℕ) → is_name_start c ≡ true → is_name_char c ≡ true
start-name_char c h = ground arith

start-not_brace : (c : ℕ) → is_name_start c ≡ true → (c == b'{') ≡ false
start-not_brace c h = ground arith

env_name-all : (name : Str) → is_env_name name ≡ true → all is_name_char name ≡ true
unfolding is_env_name
env_name-all [] h = cc
env_name-all (c ∷ name) h = rw (
  start-name_char c (&&-left (is_name_start c) (all is_name_char name) h),
  &&-right (is_name_start c) (all is_name_char name) h,
)

env_name-start : (c : ℕ) (name : Str) → is_env_name (c ∷ name) ≡ true → is_name_start c ≡ true
unfolding is_env_name
env_name-start c name h = &&-left (is_name_start c) (all is_name_char name) h

env_name_nonempty : is_env_name [] ≢ true
unfolding is_env_name
env_name_nonempty h = cc

span_name-stop : (rest : Str) → starts_name_char rest ≡ false → span_name rest ≡ ([], rest)
unfolding span_name
span_name-stop [] h = refl
span_name-stop (c ∷ s) h = rw h

span_name-append :
    (name rest : Str)
    → all is_name_char name ≡ true
    → starts_name_char rest ≡ false
    → span_name (name ++ rest) ≡ (name, rest)
unfolding span_name
span_name-append [] rest h stop = span_name-stop rest stop
span_name-append (c ∷ name) rest h stop = rw (
  &&-left (is_name_char c) (all is_name_char name) h,
  span_name-append name rest (&&-right (is_name_char c) (all is_name_char name) h) stop,
)

module _ (lookup : Str → Option Str) where
  expand_braced-name :
      (name rest : Str)
      → is_env_name name ≡ true
      → expand_braced lookup name (some rest) ≡ value_or_unset name (lookup name)
  unfolding expand_braced is_env_name
  expand_braced-name [] rest h = cc
  expand_braced-name (c ∷ name) rest h = rw h

  expand_braced-odd :
      (body rest : Str)
      → is_env_name body ≡ false
      → expand_braced lookup body (some rest) ≡ ok (spelled (odd body))
  unfolding expand_braced is_env_name
  expand_braced-odd [] rest h = refl
  expand_braced-odd (c ∷ body) rest h = rw h

  pub expand_dollar-bare :
      (name rest : Str)
      → is_env_name name ≡ true
      → starts_name_char rest ≡ false
      → expand_dollar lookup (name ++ rest) ≡ (value_or_unset name (lookup name), rest)
  unfolding expand_dollar
  expand_dollar-bare [] rest h stop = absurd (env_name_nonempty h)
  expand_dollar-bare (c ∷ name) rest h stop = rw (
    start-not_brace c (env_name-start c name h),
    env_name-start c name h,
    span_name-append (c ∷ name) rest (env_name-all (c ∷ name) h) stop,
  )

  -- A form behind its `$`, with the text behind the form.
  pub expand_dollar-braced :
      (name rest : Str)
      → is_env_name name ≡ true
      → expand_dollar lookup (b'{' ∷ (name ++ b'}' ∷ rest))
        ≡ (value_or_unset name (lookup name), rest)
  unfolding expand_dollar
  expand_dollar-braced name rest h = rw (
    until_brace-closed name rest (all_name-Lacks name (env_name-all name h)),
    expand_braced-name name rest h,
  )

  pub expand_dollar-odd :
      (body rest : Str)
      → Lacks b'}' body
      → is_env_name body ≡ false
      → expand_dollar lookup (b'{' ∷ (body ++ b'}' ∷ rest)) ≡ (ok (spelled (odd body)), rest)
  unfolding expand_dollar
  expand_dollar-odd body rest lacks h =
      rw (until_brace-closed body rest lacks, expand_braced-odd body rest h)

  pub expand_dollar-unclosed :
      (body : Str)
      → Lacks b'}' body
      → expand_dollar lookup (b'{' ∷ body) ≡ (ok (spelled (unclosed body)), [])
  unfolding expand_dollar expand_braced
  expand_dollar-unclosed body lacks = rw (until_brace-open body lacks)

  pub expand_dollar-lone :
      (rest : Str)
      → starts_brace rest ≡ false
      → starts_name rest ≡ false
      → expand_dollar lookup rest ≡ (ok (b'$' ∷ []), rest)
  unfolding expand_dollar
  expand_dollar-lone rest brace name = rw (brace, name)

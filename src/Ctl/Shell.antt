-- ===== src/Ctl/Shell.antt =====
-- `shell_escape` of src/ctl/shell.rs, against what bash reads of single-quoted text.
use nix_capsule.Prelude.{
  ◌==◌, if◌then◌else◌, ==_iff, Bool-cases, Str, codes, ℕ, ◌≡◌, refl, inl, inr, Option, none, some,
  [], ◌∷◌, ◌++◌, append_assoc,
}

-- `value.replace('\'', "'\\''")`
unfoldable pub shell_escape : Str → Str
shell_escape [] = []
shell_escape (c ∷ s) =
    let rest = shell_escape s in if c == b'\'' then codes "'\\''" ++ rest else c ∷ rest

-- The single-quoted word that the callers build.
abbrev pub quoted : Str → Str
quoted value = b'\'' ∷ (shell_escape value ++ b'\'' ∷ [])

-- Where bash is in a word: outside of quotes, behind a backslash there, or inside single quotes.
pub data Mode : Type 0 where
  plain escaped single : Mode

abbrev cons_word : ℕ → Option (Str × Str) → Option (Str × Str)
cons_word c none = none
cons_word c (some (w, rest)) = some (c ∷ w, rest)

-- What bash reads of one word that ends at a newline, and the text from the newline on. `none` is text
-- that is not one quoted word: an unclosed quote, or a character outside of quotes that bash may read
-- as an operator, an expansion or a blank.
unfoldable pub read_word : Mode → Str → Option (Str × Str)
read_word Mode.single [] = none
read_word Mode.single (c ∷ s) =
    let closed = read_word Mode.plain s in
    let rest = read_word Mode.single s in if c == b'\'' then closed else cons_word c rest
read_word Mode.escaped [] = none
read_word Mode.escaped (c ∷ s) = cons_word c (read_word Mode.plain s)
read_word Mode.plain [] = none
read_word Mode.plain (c ∷ s) =
    let inside = read_word Mode.single s in
    let behind = read_word Mode.escaped s in
    if c == 10
    then some ([], c ∷ s)
    else if c == b'\''
    then inside
    else if c == b'\\'
    then behind
    else none

read_word-escape :
    (v rest : Str)
    → read_word Mode.single (shell_escape v ++ b'\'' ∷ 10 ∷ rest) ≡ some (v, 10 ∷ rest)
unfolding read_word shell_escape
read_word-escape [] rest = refl
read_word-escape (c ∷ v) rest = elim (Bool-cases (c == b'\'')) [
  | inl here ↦ rw (here, read_word-escape v rest, (==_iff c b'\'').0 here)
  | inr apart ↦ rw (apart, read_word-escape v rest, apart)
]

-- Bash reads the quoted word of any value as that value, and stops behind the word.
pub read_word-quoted :
    (v rest : Str) → read_word Mode.plain (quoted v ++ 10 ∷ rest) ≡ some (v, 10 ∷ rest)
unfolding read_word
read_word-quoted v rest =
    rw (append_assoc (shell_escape v) (b'\'' ∷ []) (10 ∷ rest), read_word-escape v rest)

-- ===== src/Ctl/Runtime/Launch.antt =====
-- What bash reads of the command line that `launch_command` of src/ctl/runtime.rs builds.
use nix_capsule.Prelude.{
  leb, ◌==◌, if◌then◌else◌, ==_iff, Bool-cases, all, Str, codes, is_empty, is_ascii_digit, ℕ, ◌≡◌,
  refl, ◌∙◌, inl, inr, Bool, true, false, ◌&&◌, ◌||◌, Option, none, some, List, [], ◌∷◌, ◌++◌,
  append_assoc,
}
use nix_capsule.Prelude.Decimal.{to_decimal, to_decimal-all, to_decimal_nonempty}
use nix_capsule.Ctl.Shell.{shell_escape, quoted}
use nix_capsule.Ctl.Runtime.{ServerArgs, launch_command}
use nix_capsule.Server.LogLevel.{LogLevel, as_str}

-- What a character is to bash outside of quotes; `foreign` is one that this reader does not take.
pub data Kind : Type 0 where
  blank quote backslash ampersand bare foreign : Kind

abbrev is_bare : ℕ → Bool
is_bare c =
    is_ascii_digit c
    || leb b'a' c && leb c b'z'
    || leb b'A' c && leb c b'Z'
    || c == b'-'
    || c == b'/'
    || c == b'.'
    || c == b'_'

unfoldable pub kind : ℕ → Kind
kind c =
    if is_bare c
    then Kind.bare
    else if c == b' '
    then Kind.blank
    else if c == b'\''
    then Kind.quote
    else if c == b'\\'
    then Kind.backslash
    else if c == b'&'
    then Kind.ampersand
    else Kind.foreign

-- A word, its quoting removed, or the operator `&&`.
pub data Token : Type 0 where
  word : Str → Token
  and_then : Token

-- Between words, in a word, in its single quotes, behind its backslash, or behind a first `&`.
pub data Place : Type 0 where
  gap plain single escaped operator : Place

abbrev behind : Token → Option (List Token) → Option (List Token)
behind t none = none
behind t (some ts) = some (t ∷ ts)

-- More of the word that comes first.
abbrev prepend : Str → Option (List Token) → Option (List Token)
prepend w (some (Token.word v ∷ ts)) = some (Token.word (w ++ v) ∷ ts)
prepend w _ = none

abbrev next : Place → Kind → ℕ → (Place → Option (List Token)) → Option (List Token)
next Place.gap Kind.blank c later = later Place.gap
next Place.gap Kind.ampersand c later = later Place.operator
next Place.gap Kind.bare c later = prepend (c ∷ []) (later Place.plain)
next Place.gap Kind.quote c later = later Place.single
next Place.plain Kind.blank c later = behind (Token.word []) (later Place.gap)
next Place.plain Kind.bare c later = prepend (c ∷ []) (later Place.plain)
next Place.plain Kind.quote c later = later Place.single
next Place.plain Kind.backslash c later = later Place.escaped
next Place.single Kind.quote c later = later Place.plain
next Place.single _ c later = prepend (c ∷ []) (later Place.single)
next Place.escaped Kind.quote c later = prepend (c ∷ []) (later Place.plain)
next Place.operator Kind.ampersand c later = behind Token.and_then (later Place.gap)
next _ _ c later = none

abbrev at_end : Place → Option (List Token)
at_end Place.gap = some []
at_end Place.plain = some (Token.word [] ∷ [])
at_end _ = none

-- The words and operators that bash reads; `none` is text that this reader does not take, such as an
-- unclosed quote or a character outside of quotes that bash may expand.
unfoldable pub read_tokens : Str → Place → Option (List Token)
unfolding kind
read_tokens [] place = at_end place
read_tokens (c ∷ s) place = next place (kind c) c (read_tokens s)

prepend-behind :
    (v w : Str) (o : Option (List Token))
    → prepend v (behind (Token.word w) o) ≡ behind (Token.word (v ++ w)) o
prepend-behind v w none = refl
prepend-behind v w (some ts) = refl

-- Inside single quotes every character but the quote stands for itself.
kind-single :
    (c : ℕ) (later : Place → Option (List Token))
    → c == b'\'' ≡ false
    → next Place.single (kind c) c later ≡ prepend (c ∷ []) (later Place.single)
unfolding kind
kind-single c later apart = elim (Bool-cases (is_bare c)) [
  | inl p ↦ rw p refl
  | inr not_bare ↦ elim (Bool-cases (c == b' ')) [
    | inl p ↦ rw (not_bare, p) refl
    | inr not_blank ↦ elim (Bool-cases (c == b'\\')) [
      | inl p ↦ rw (not_bare, not_blank, apart, p) refl
      | inr not_backslash ↦ elim (Bool-cases (c == b'&')) [
        | inl p ↦ rw (not_bare, not_blank, apart, not_backslash, p) refl
        | inr p ↦ rw (not_bare, not_blank, apart, not_backslash, p) refl
      ]
    ]
  ]
]

all_parts :
    (p : ℕ → Bool) (c : ℕ) (w : Str) → all p (c ∷ w) ≡ true → (p c ≡ true) × (all p w ≡ true)
all_parts p c w taken = elim (Bool-cases (p c)) [
  | inl y ↦ (y, rw y at taken)
  | inr n ↦ cc (rw n at taken)
]

-- The text behind a word: a blank, or nothing.
abbrev Stops : Str → Option (List Token) → Type 0
Stops rest o = read_tokens rest Place.plain ≡ behind (Token.word []) o

module _ (rest : Str) (o : Option (List Token)) (stops : Stops rest o) where
  read_tokens-escape :
      (v : Str)
      → read_tokens (shell_escape v ++ b'\'' ∷ rest) Place.single ≡ behind (Token.word v) o
  unfolding read_tokens shell_escape kind
  read_tokens-escape [] = stops
  read_tokens-escape (c ∷ v) = elim (Bool-cases (c == b'\'')) [
    | inl here ↦
        rw (here, read_tokens-escape v, (==_iff c b'\'').0 here) (prepend-behind (b'\'' ∷ []) v o)
    | inr apart ↦ rw apart (
        kind-single c (read_tokens (shell_escape v ++ b'\'' ∷ rest)) apart
        ∙ rw (read_tokens-escape v) (prepend-behind (c ∷ []) v o))
  ]

  read_tokens-quoted :
      (v : Str) → read_tokens (quoted v ++ rest) Place.gap ≡ behind (Token.word v) o
  unfolding read_tokens kind
  read_tokens-quoted v = rw (append_assoc (shell_escape v) (b'\'' ∷ []) rest) (read_tokens-escape v)

  bare_tail :
      (w : Str)
      → all is_bare w ≡ true
      → read_tokens (w ++ rest) Place.plain ≡ behind (Token.word w) o
  unfolding read_tokens kind
  bare_tail [] taken = stops
  bare_tail (c ∷ w) taken =
      let (first, others) = all_parts is_bare c w taken in
      rw (first, bare_tail w others) (prepend-behind (c ∷ []) w o)

  bare_word :
      (w : Str)
      → is_empty w ≡ false
      → all is_bare w ≡ true
      → read_tokens (w ++ rest) Place.gap ≡ behind (Token.word w) o
  unfolding read_tokens kind
  bare_word [] some_character taken = cc
  bare_word (c ∷ w) some_character taken =
      let (first, others) = all_parts is_bare c w taken in
      rw (first, bare_tail w others) (prepend-behind (c ∷ []) w o)

digits-bare : (s : Str) → all is_ascii_digit s ≡ true → all is_bare s ≡ true
digits-bare [] taken = refl
digits-bare (c ∷ s) taken =
    let (first, others) = all_parts is_ascii_digit c s taken in
    rw (first, digits-bare s others) refl

-- The words that the container's bash is to see: the env file is sourced, and then the server is executed
-- with its arguments.
abbrev pub launch_tokens : Str → Str → ServerArgs → List Token
launch_tokens env server args =
    Token.word (codes "source")
    ∷ Token.word env
    ∷ Token.and_then
    ∷ Token.word (codes "exec")
    ∷ Token.word server
    ∷ Token.word (codes "--socket")
    ∷ Token.word args.socket
    ∷ Token.word (codes "--log-dir")
    ∷ Token.word args.log_dir
    ∷ Token.word (codes "--timeout")
    ∷ Token.word (to_decimal args.timeout)
    ∷ Token.word (codes "--log-level")
    ∷ Token.word (as_str args.level)
    ∷ []

-- The command line behind the timeout, the log directory, the socket and the server, and its tokens.
abbrev level_text : ServerArgs → Str
level_text args = codes " --log-level " ++ as_str args.level

abbrev level_tokens : ServerArgs → List Token
level_tokens args = Token.word (codes "--log-level") ∷ Token.word (as_str args.level) ∷ []

abbrev timeout_text : ServerArgs → Str
timeout_text args = codes " --timeout " ++ (to_decimal args.timeout ++ level_text args)

abbrev timeout_tokens : ServerArgs → List Token
timeout_tokens args =
    Token.word (codes "--timeout") ∷ Token.word (to_decimal args.timeout) ∷ level_tokens args

abbrev log_dir_text : ServerArgs → Str
log_dir_text args = codes " --log-dir " ++ (quoted args.log_dir ++ timeout_text args)

abbrev log_dir_tokens : ServerArgs → List Token
log_dir_tokens args = Token.word (codes "--log-dir") ∷ Token.word args.log_dir ∷ timeout_tokens args

abbrev socket_text : ServerArgs → Str
socket_text args = codes " --socket " ++ (quoted args.socket ++ log_dir_text args)

abbrev socket_tokens : ServerArgs → List Token
socket_tokens args = Token.word (codes "--socket") ∷ Token.word args.socket ∷ log_dir_tokens args

abbrev server_text : Str → ServerArgs → Str
server_text server args = codes " && exec " ++ (quoted server ++ socket_text args)

abbrev server_tokens : Str → ServerArgs → List Token
server_tokens server args =
    Token.and_then ∷ Token.word (codes "exec") ∷ Token.word server ∷ socket_tokens args

level_last :
    (level : LogLevel)
    → read_tokens (as_str level) Place.gap ≡ some (Token.word (as_str level) ∷ [])
unfolding read_tokens kind as_str
level_last LogLevel.debug = refl
level_last LogLevel.info = refl
level_last LogLevel.warning = refl
level_last LogLevel.error = refl

-- Whatever characters the four paths hold, bash reads the launch command as exactly these words around one
-- `&&`, each path as one word that is the path, the timeout as its decimal digits and the level as its name.
pub launch_command-tokens :
    (env server : Str) (args : ServerArgs)
    → read_tokens (launch_command env server args) Place.gap ≡ some (launch_tokens env server args)
unfolding launch_command read_tokens kind
launch_command-tokens env server args =
    let level = level_last args.level in
    let timeout =
      bare_word (level_text args) (some (level_tokens args)) (rw level refl)
        (to_decimal args.timeout) (to_decimal_nonempty args.timeout)
        (digits-bare (to_decimal args.timeout) (to_decimal-all args.timeout)) in
    let log_dir =
      read_tokens-quoted (timeout_text args) (some (timeout_tokens args)) (rw timeout refl)
        args.log_dir in
    let socket =
      read_tokens-quoted (log_dir_text args) (some (log_dir_tokens args)) (rw log_dir refl)
        args.socket in
    let server_word =
      read_tokens-quoted (socket_text args) (some (socket_tokens args)) (rw socket refl) server in
    let env_word =
      read_tokens-quoted (server_text server args) (some (server_tokens server args))
        (rw server_word refl) env in
    rw env_word refl

-- ===== src/Server/LogLevel.antt =====
-- `LogLevel` and the severity gate of `Log` in src/server.rs.
use nix_capsule.Prelude.{
  ltb, if◌then◌else◌, Bool-cases, take, Result, ok, err, Str, codes, str_eq, str_eq_iff, ℕ, ◌≡◌,
  refl, sym, ap, ◌∙◌, ◌↔◌, inl, inr, Bool, true, false, not, Option, none, some, List, [], ◌∷◌,
  ◌++◌, append-nil, append_assoc,
}

pub data LogLevel : Type 0 where
  debug info warning error : LogLevel

unfoldable pub as_str : LogLevel → Str
as_str debug = codes "debug"
as_str info = codes "info"
as_str warning = codes "warning"
as_str error = codes "error"

unfoldable pub rank : LogLevel → ℕ
rank debug = 0
rank info = 1
rank warning = 2
rank error = 3

-- The first variant whose tag is the value; `matches` compares with case.
find_level : List LogLevel → Str → Option LogLevel
unfolding as_str
find_level [] value = none
find_level (level ∷ levels) value =
    if str_eq (as_str level) value then some level else find_level levels value

unfoldable pub parse : Str → Option LogLevel
unfolding find_level
parse value = find_level (debug ∷ info ∷ warning ∷ error ∷ []) value

-- `from_str`: the rejected value rides in the error, `LogLevelParseError::BadLevel`.
abbrev pub level_or_bad : Option LogLevel → Str → Result Str LogLevel
level_or_bad (some level) value = ok level
level_or_bad none value = err value

unfoldable pub from_str : Str → Result Str LogLevel
unfolding parse
from_str value = level_or_bad (parse value) value

find_level_sound :
    (levels : List LogLevel) (value : Str) {level : LogLevel}
    → find_level levels value ≡ some level
    → value ≡ as_str level
unfolding find_level
find_level_sound [] value e = cc
find_level_sound (l ∷ levels) value {level} e = elim (Bool-cases (str_eq (as_str l) value)) [
  | inl hit ↦
      let same : l ≡ level = cc (rw hit at e) in
      rw (← same) (sym ((str_eq_iff (as_str l) value).0 hit))
  | inr miss ↦ find_level_sound levels value {level = level} (rw miss at e)
]

parse-as_str : (level : LogLevel) → parse (as_str level) ≡ some level
unfolding parse
parse-as_str debug = refl
parse-as_str info = refl
parse-as_str warning = refl
parse-as_str error = refl

-- Exactly the four tags are parsed, each to its level.
pub parse_iff :
    (value : Str) (level : LogLevel) → (parse value ≡ some level) ↔ (value ≡ as_str level)
parse_iff value level = (
  λ e.
      find_level_sound (debug ∷ info ∷ warning ∷ error ∷ []) value {level = level}
        (unfold parse in e),
  λ e. rw e (parse-as_str level),
)

-- A log's two sinks, each what was written to it.
pub record Log : Type 0 where
  pub min_level : LogLevel
  pub file : Str
  pub mirror : Str

-- How much of a line each sink takes before its write fails: none of it when the file's lock is poisoned,
-- and all of it when it does not fail.
pub record Taken : Type 0 where
  pub file : ℕ
  pub mirror : ℕ

-- `[<stamp>] <level>: <message>\n`
abbrev pub line_of : Str → LogLevel → Str → Str
line_of stamp level message =
    codes "["
    ++ (stamp ++ (codes "] " ++ (as_str level ++ (codes ": " ++ (message ++ codes "\n")))))

-- Lock and writes are best effort: no failure changes what comes next.
unfoldable pub emit_line : Str → Taken → Log → LogLevel → Str → Log
emit_line stamp taken log level message =
    if ltb (rank level) (rank log.min_level) then log else record log {
      file = log.file ++ take taken.file (line_of stamp level message);
      mirror = log.mirror ++ take taken.mirror (line_of stamp level message);
    }

-- A call of `emit_line`: its stamp, what the sinks take of it, its level and its message.
pub record Call : Type 0 where
  pub stamp : Str
  pub taken : Taken
  pub level : LogLevel
  pub message : Str

unfoldable pub emit_all : List Call → Log → Log
emit_all [] log = log
emit_all (c ∷ calls) log = emit_all calls (emit_line c.stamp c.taken log c.level c.message)

-- The level is the minimum or a graver one; the four in the order debug, info, warning, error.
abbrev pub at_least : LogLevel → LogLevel → Bool
at_least debug level = true
at_least info debug = false
at_least info info = true
at_least info warning = true
at_least info error = true
at_least warning debug = false
at_least warning info = false
at_least warning warning = true
at_least warning error = true
at_least error debug = false
at_least error info = false
at_least error warning = false
at_least error error = true

-- What a sink takes of the lines of the calls at or above the minimum.
unfoldable pub kept : (Taken → ℕ) → LogLevel → List Call → Str
kept part min_level [] = []
kept part min_level (c ∷ calls) =
    let rest = kept part min_level calls in
    if at_least min_level c.level
    then take (part c.taken) (line_of c.stamp c.level c.message) ++ rest
    else rest

-- The severity gate lets exactly those levels pass.
ltb-rank :
    (min_level level : LogLevel)
    → ltb (rank level) (rank min_level) ≡ not (at_least min_level level)
unfolding rank
ltb-rank debug debug = refl
ltb-rank debug info = refl
ltb-rank debug warning = refl
ltb-rank debug error = refl
ltb-rank info debug = refl
ltb-rank info info = refl
ltb-rank info warning = refl
ltb-rank info error = refl
ltb-rank warning debug = refl
ltb-rank warning info = refl
ltb-rank warning warning = refl
ltb-rank warning error = refl
ltb-rank error debug = refl
ltb-rank error info = refl
ltb-rank error warning = refl
ltb-rank error error = refl

emit_line-kept :
    (log : Log) (c : Call)
    → let out = emit_line c.stamp c.taken log c.level c.message in
      (out.file ≡ log.file ++ kept (λ t. t.file) log.min_level (c ∷ []))
      × (out.mirror ≡ log.mirror ++ kept (λ t. t.mirror) log.min_level (c ∷ []))
      × (out.min_level ≡ log.min_level)
unfolding emit_line kept
emit_line-kept log c = elim (Bool-cases (at_least log.min_level c.level)) [
  | inl above ↦
      rw (ltb-rank, above)
        (
          ap (λ t. log.file ++ t) (sym (append-nil _)),
          ap (λ t. log.mirror ++ t) (sym (append-nil _)),
          refl,
        )
  | inr below ↦ rw (ltb-rank, below) (sym (append-nil log.file), sym (append-nil log.mirror), refl)
]

kept-cons :
    (part : Taken → ℕ) (min_level : LogLevel) (c : Call) (calls : List Call)
    → kept part min_level (c ∷ calls) ≡ kept part min_level (c ∷ []) ++ kept part min_level calls
unfolding kept
kept-cons part min_level c calls = elim (Bool-cases (at_least min_level c.level)) [
  | inl above ↦
      rw (above, append-nil (take (part c.taken) (line_of c.stamp c.level c.message))) refl
  | inr below ↦ rw below refl
]

-- Whatever is logged, and however much of each line a sink takes, a sink gets what it takes of the lines
-- whose level is the minimum or a graver one, in the order debug, info, warning, error, one line behind the
-- other as they were logged, and nothing else; what one sink takes changes nothing of the other.
pub emit_all-kept :
    (calls : List Call) (log : Log)
    → let out = emit_all calls log in
      (out.file ≡ log.file ++ kept (λ t. t.file) log.min_level calls)
      × (out.mirror ≡ log.mirror ++ kept (λ t. t.mirror) log.min_level calls)
unfolding emit_all
emit_all-kept [] log = unfold kept in (sym (append-nil log.file), sym (append-nil log.mirror))
emit_all-kept (c ∷ calls) log =
    let mid = emit_line c.stamp c.taken log c.level c.message in
    let (ef, em, el) = emit_line-kept log c in
    let (hf, hm) = emit_all-kept calls mid in
    (
      hf
          ∙ rw (ef, el)
              (append_assoc log.file (kept (λ t. t.file) log.min_level (c ∷ [])) _
                ∙ ap (λ t. log.file ++ t) (sym (kept-cons (λ t. t.file) log.min_level c calls))),
      hm
          ∙ rw (em, el)
              (append_assoc log.mirror (kept (λ t. t.mirror) log.min_level (c ∷ [])) _
                ∙ ap (λ t. log.mirror ++ t)
                    (sym (kept-cons (λ t. t.mirror) log.min_level c calls))),
    )

-- ===== src/Ctl/Config/Sanitize.antt =====
-- The project name out of a directory name, `sanitize` of src/ctl/config.rs.
use nix_capsule.Prelude.{
  ◌==◌, if◌then◌else◌, ==_iff, Bool-cases, &&-left, &&-right, &&-false, Str, is_empty,
  is_ascii_alphanumeric, ℕ, ◌≡◌, refl, sym, ◌⊎◌, inl, inr, Bool, true, false, not, ◌&&◌, Option,
  none, some, [], ◌∷◌, ◌++◌, append-nil, append_assoc, arith,
}

-- The loop: the name so far, and whether a run of other characters was just left.
unfoldable pub sanitize_loop : Str → Bool → Str → Str
sanitize_loop name run [] = name
sanitize_loop name run (ch ∷ s) =
    let broken = sanitize_loop name true s in
    let joined = sanitize_loop (name ++ b'-' ∷ ch ∷ []) false s in
    let pushed = sanitize_loop (name ++ ch ∷ []) false s in
    if not (is_ascii_alphanumeric ch)
    then broken
    else if run && not (is_empty name)
    then joined
    else pushed

unfoldable pub trim_start : Str → Str
trim_start [] = []
trim_start (c ∷ s) = let rest = trim_start s in if c == b'-' then rest else c ∷ s

unfoldable pub trim_end : Str → Str
trim_end [] = []
trim_end (c ∷ s) = let rest = trim_end s in if is_empty rest && (c == b'-') then [] else c ∷ rest

-- `trim_matches('-')`
abbrev trim_matches : Str → Str
trim_matches s = trim_end (trim_start s)

abbrev non_empty : Str → Option Str
non_empty [] = none
non_empty (c ∷ s) = some (c ∷ s)

unfoldable pub sanitize : Str → Option Str
sanitize basename = non_empty (trim_matches (sanitize_loop [] false basename))

-- A name of letters and digits, with a single `-` between some of them; `gap` says that no letter or
-- digit stands right before.
unfoldable pub neat : Bool → Str → Bool
neat gap [] = not gap
neat gap (c ∷ s) =
    let name = neat false s in
    let broken = neat true s in
    if is_ascii_alphanumeric c then name else (c == b'-') && (not gap && broken)

-- What a `-` in a neat name says of its neighbours.
neat_dash :
    (gap : Bool) (d : ℕ) (s : Str)
    → is_ascii_alphanumeric d ≡ false
    → neat gap (d ∷ s) ≡ true
    → ((d == b'-') ≡ true) × (not gap ≡ true) × (neat true s ≡ true)
unfolding neat
neat_dash gap d s dash n =
    let after : ((d == b'-') && (not gap && neat true s)) ≡ true = rw dash at n in
    let more = &&-right (d == b'-') (not gap && neat true s) after in
    (
      &&-left (d == b'-') (not gap && neat true s) after,
      &&-left (not gap) (neat true s) more,
      &&-right (not gap) (neat true s) more,
    )

neat-append :
    (gap : Bool) (s t : Str) → neat gap s ≡ true → neat false t ≡ true → neat gap (s ++ t) ≡ true
unfolding neat
neat-append true [] t n m = cc
neat-append false [] t n m = m
neat-append gap (d ∷ s) t n m = elim (Bool-cases (is_ascii_alphanumeric d)) [
  | inl name ↦ rw name (neat-append false s t (rw name at n) m)
  | inr dash ↦
      let (is_dash, no_gap, rest) = neat_dash gap d s dash n in
      rw (dash, is_dash, no_gap) (neat-append true s t rest m)
]

neat_start : (c : ℕ) → is_ascii_alphanumeric c ≡ true → neat true (c ∷ []) ≡ true
unfolding neat
neat_start c h = rw h

neat_one :
    (dash : Bool) (c : ℕ)
    → is_ascii_alphanumeric c ≡ true
    → neat false (if dash then b'-' ∷ c ∷ [] else c ∷ []) ≡ true
unfolding neat
neat_one true c h = rw h
neat_one false c h = rw h

alphanumeric-not_dash : (c : ℕ) → is_ascii_alphanumeric c ≡ true → (c == b'-') ≡ false
alphanumeric-not_dash c h = ground arith

neat_nonempty : (s : Str) → neat true s ≡ true → is_empty s ≡ false
unfolding neat
neat_nonempty [] n = cc
neat_nonempty (c ∷ s) n = refl

sanitize_loop-neat :
    (name : Str) (run : Bool) (s : Str)
    → neat true name ≡ true
    → neat true (sanitize_loop name run s) ≡ true
unfolding sanitize_loop
sanitize_loop-neat name run [] n = n
sanitize_loop-neat name run (ch ∷ s) n = elim (Bool-cases (is_ascii_alphanumeric ch)) [
  | inr broken ↦ rw broken (sanitize_loop-neat name true s n)
  | inl kept ↦ elim (Bool-cases (run && not (is_empty name))) [
    | inl joined ↦
        rw (kept, joined)
          (sanitize_loop-neat (name ++ b'-' ∷ ch ∷ []) false s
            (neat-append true name (b'-' ∷ ch ∷ []) n (neat_one true ch kept)))
    | inr pushed ↦
        rw (kept, pushed)
          (sanitize_loop-neat (name ++ ch ∷ []) false s
            (neat-append true name (ch ∷ []) n (neat_one false ch kept)))
  ]
]

sanitize_loop-empty :
    (run : Bool) (s : Str)
    → (sanitize_loop [] run s ≡ []) ⊎ (neat true (sanitize_loop [] run s) ≡ true)
unfolding sanitize_loop
sanitize_loop-empty run [] = inl refl
sanitize_loop-empty run (ch ∷ s) = elim (Bool-cases (is_ascii_alphanumeric ch)) [
  | inr broken ↦ rw broken (sanitize_loop-empty true s)
  | inl kept ↦
      rw (kept, &&-false run) (inr (sanitize_loop-neat (ch ∷ []) false s (neat_start ch kept)))
]

trim_start-neat : (s : Str) → neat true s ≡ true → trim_start s ≡ s
unfolding neat trim_start
trim_start-neat [] n = refl
trim_start-neat (c ∷ s) n = elim (Bool-cases (is_ascii_alphanumeric c)) [
  | inl name ↦ rw (alphanumeric-not_dash c name)
  | inr dash ↦ cc (neat_dash true c s dash n).1
]

trim_end-neat : (gap : Bool) (s : Str) → neat gap s ≡ true → trim_end s ≡ s
unfolding neat trim_end
trim_end-neat gap [] n = refl
trim_end-neat gap (c ∷ s) n = elim (Bool-cases (is_ascii_alphanumeric c)) [
  | inl name ↦
      rw (trim_end-neat false s (rw name at n), alphanumeric-not_dash c name, &&-false (is_empty s))
  | inr dash ↦
      let rest = (neat_dash gap c s dash n).2 in
      rw (trim_end-neat true s rest, neat_nonempty s rest)
]

non_empty-neat : (s : Str) {n : Str} → non_empty s ≡ some n → s ≡ n
non_empty-neat [] e = cc
non_empty-neat (c ∷ s) e = cc

-- A project name is letters and digits, with a single `-` between some of them.
pub sanitize-neat :
    (basename : Str) {name : Str} → sanitize basename ≡ some name → neat true name ≡ true
unfolding sanitize trim_start trim_end
sanitize-neat basename {name} e = elim (sanitize_loop-empty false basename) [
  | inl nothing ↦ cc (rw nothing at e)
  | inr n ↦
      let same : sanitize_loop [] false basename ≡ name =
        non_empty-neat _ (rw (trim_start-neat _ n, trim_end-neat true _ n) at e) in
      rw (← same) n
]

append_nonempty : (s : Str) (c : ℕ) (t : Str) → is_empty (s ++ c ∷ t) ≡ false
append_nonempty [] c t = refl
append_nonempty (d ∷ s) c t = refl

sanitize_loop-keeps :
    (name : Str) (gap : Bool) (s : Str)
    → is_empty name ≡ false
    → neat gap s ≡ true
    → sanitize_loop name gap s ≡ name ++ (if gap then b'-' ∷ s else s)
unfolding sanitize_loop neat
sanitize_loop-keeps name true [] h n = cc
sanitize_loop-keeps name false [] h n = sym (append-nil name)
sanitize_loop-keeps name true (c ∷ s) h n = elim (Bool-cases (is_ascii_alphanumeric c)) [
  | inl kept ↦
      rw
        (
          kept,
          h,
          sanitize_loop-keeps (name ++ b'-' ∷ c ∷ []) false s (append_nonempty name _ _)
              (rw kept at n),
        )
        (append_assoc name (b'-' ∷ c ∷ []) s)
  | inr dash ↦ cc (neat_dash true c s dash n).1
]
sanitize_loop-keeps name false (c ∷ s) h n = elim (Bool-cases (is_ascii_alphanumeric c)) [
  | inl kept ↦
      rw
        (
          kept,
          sanitize_loop-keeps (name ++ c ∷ []) false s (append_nonempty name _ _) (rw kept at n),
        )
        (append_assoc name (c ∷ []) s)
  | inr dash ↦
      let (is_dash, _, rest) = neat_dash false c s dash n in
      rw (dash, sanitize_loop-keeps name true s h rest, (==_iff c b'-').0 is_dash)
]

sanitize-keeps : (name : Str) → neat true name ≡ true → sanitize name ≡ some name
unfolding sanitize sanitize_loop neat
sanitize-keeps [] n = cc
sanitize-keeps (c ∷ s) n = elim (Bool-cases (is_ascii_alphanumeric c)) [
  | inl kept ↦ rw (
    kept,
    sanitize_loop-keeps (c ∷ []) false s refl (rw kept at n),
    trim_start-neat (c ∷ s) n,
    trim_end-neat true (c ∷ s) n,
  )
  | inr dash ↦ cc (neat_dash true c s dash n).1
]

-- A name that is one already is kept as it is, so that sanitizing twice changes nothing more.
pub sanitize_idempotent :
    (basename : Str) {name : Str} → sanitize basename ≡ some name → sanitize name ≡ some name
sanitize_idempotent basename {name} e = sanitize-keeps name (sanitize-neat basename e)

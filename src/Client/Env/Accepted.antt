-- ===== src/Client/Env/Accepted.antt =====
-- The environment that src/client/mod.rs sends, as `handle_conn` of src/server.rs reads it.
use mathlib.Core.Option
use nix_capsule.Prelude.{
  ◌==◌, Bool-cases, Option-cases, ok, ok-injective, >>=-eq-ok, Str, split_once, Lacks,
  split_once-append, split_once_sound, ◌≡◌, refl, sym, ap, ◌∙◌, inl, inr, Option, none, some, List,
  [], ◌∷◌, ◌++◌, map, append_assoc, arith,
}
use nix_capsule.Client.Env.{
  OsString, Entry, render, Process, forward_loop, flag_loop, forwarded_names, build_env,
}
use nix_capsule.Server.Connection.Handler.{parse_entries}

abbrev Plain : Entry → Type 0
Plain e = Lacks b'=' e.0

split_once-none : (s : Str) → split_once b'=' s ≡ none → Lacks b'=' s
split_once-none [] e = tt
split_once-none (c ∷ s) e = elim (Bool-cases (c == b'=')) [
  | inl here ↦ cc (rw here at e)
  | inr apart ↦ elim (Option-cases (split_once b'=' s)) [
    | inl nothing ↦ (λ same. ground arith, split_once-none s nothing)
    | inr (kv, found) ↦ cc (rw (apart, found) at e)
  ]
]

-- An entry as a reader splits it, at the first `=` of its text: a key that holds one is cut there.
abbrev cut : Entry → Option (Str × Str) → Entry
cut e none = e
cut e (some (key, rest)) = (key, rest ++ b'=' ∷ e.1)

abbrev pub at_first : Entry → Entry
at_first e = cut e (split_once b'=' e.0)

split_once-render : (e : Entry) → split_once b'=' (render e) ≡ some (at_first e)
split_once-render (k, v) = elim (Option-cases (split_once b'=' k)) [
  | inl nothing ↦ rw (nothing, split_once-append b'=' k v (split_once-none k nothing)) refl
  | inr ((key, rest), found) ↦
      let (lacks, same) = split_once_sound b'=' k {k = key} {v = rest} found in
      rw found (
        ap (λ t. split_once b'=' (t ++ b'=' ∷ v)) same
        ∙ ap (split_once b'=') (append_assoc key (b'=' ∷ rest) (b'=' ∷ v))
        ∙ split_once-append b'=' key (rest ++ b'=' ∷ v) lacks)
]

parse_entries-at_first : (es : List Entry) → parse_entries (map render es) ≡ ok (map at_first es)
unfolding parse_entries
parse_entries-at_first [] = refl
parse_entries-at_first (e ∷ es) = rw (split_once-render e, parse_entries-at_first es) refl

-- Every environment that `build_env` gives is accepted by the server, which reads each rendered entry as the
-- pair that the first `=` of its text makes.
pub build_env-accepted :
    (p : Process) (cli : List OsString) (forward : Option Str) {vars : List Str}
    → build_env p cli forward ≡ ok vars
    → (es : List Entry) × (vars ≡ map render es) × (parse_entries vars ≡ ok (map at_first es))
unfolding build_env
build_env-accepted p cli forward {vars} e =
    let (names, _, t1) = >>=-eq-ok (forwarded_names p forward) _ e in
    let (es, flags, t2) = >>=-eq-ok (flag_loop p cli (forward_loop p names [])) _ t1 in
    let same : vars ≡ map render es = sym (ok-injective t2) in
    (es, same, ap parse_entries same ∙ parse_entries-at_first es)

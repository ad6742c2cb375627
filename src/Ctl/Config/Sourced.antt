-- ===== src/Ctl/Config/Sourced.antt =====
-- What bash makes of the lines that `setup_env` of src/ctl/config.rs prints.
use Prim.Native.String.{String}
use nix_capsule.Prelude.{
  ◌==◌, if◌then◌else◌, &&-right, length, all, All, ok, ok-injective, >>=-eq-ok, Str, codes,
  split_once, Lacks, split_once-append, strip_prefix, ℕ, zero, suc, ◌<◌, ◌≡◌, refl, true, not,
  Option, none, some, List, [], ◌∷◌, ◌++◌, append_assoc, arith,
}
use nix_capsule.Ctl.Shell.{quoted, Mode, read_word, read_word-quoted}
use nix_capsule.Ctl.Layout.{Dirs}
use nix_capsule.Ctl.Config.{Shell, demand}
use nix_capsule.Ctl.Config.SetupEnv.{
  export_line, export_lines, resolve_project, cache_value, logs_value, setup_pairs, setup_env,
}

abbrev ended : Str → Str → Str → Option ((Str × Str) × Str)
ended var value [] = none
ended var value (c ∷ rest) = if c == 10 then some ((var, value), rest) else none

abbrev with_value : Str → Option (Str × Str) → Option ((Str × Str) × Str)
with_value var (some (value, rest)) = ended var value rest
with_value var none = none

abbrev assigned : Option (Str × Str) → Option ((Str × Str) × Str)
assigned none = none
assigned (some (var, word)) = with_value var (read_word Mode.plain word)

abbrev exported : Option Str → Option ((Str × Str) × Str)
exported none = none
exported (some rest) = assigned (split_once b'=' rest)

-- One `export VAR=word` line of a script, and the text behind it.
unfoldable pub read_line : Str → Option ((Str × Str) × Str)
read_line script = exported (strip_prefix (codes "export ") script)

abbrev keep : Str × Str → Option (List (Str × Str)) → Option (List (Str × Str))
keep p none = none
keep p (some ps) = some (p ∷ ps)

abbrev then_source :
    (Str → Option (List (Str × Str))) → Option ((Str × Str) × Str) → Option (List (Str × Str))
then_source go none = none
then_source go (some (p, rest)) = keep p (go rest)

-- The variables that sourcing a script of such lines sets, in order; `none` if a line is not one.
unfoldable pub source : ℕ → Str → Option (List (Str × Str))
source zero script = none
source (suc fuel) [] = some []
source (suc fuel) (c ∷ script) = then_source (source fuel) (read_line (c ∷ script))

assigned-word :
    (var value rest : Str)
    → assigned (some (var, (quoted value ++ 10 ∷ []) ++ rest)) ≡ some ((var, value), rest)
assigned-word var value rest =
    rw (append_assoc (quoted value) (10 ∷ []) rest, read_word-quoted value rest)

read_line-export :
    (var value rest : Str)
    → Lacks b'=' var
    → read_line (export_line (var, value) ++ rest) ≡ some ((var, value), rest)
unfolding read_line export_line
read_line-export var value rest lacks =
    rw
      (
        append_assoc var (b'=' ∷ (quoted value ++ 10 ∷ [])) rest,
        split_once-append b'=' var ((quoted value ++ 10 ∷ []) ++ rest) lacks,
      )
      (assigned-word var value rest)

source_line :
    (fuel : ℕ) (var value : Str) (ps : List (Str × Str))
    → Lacks b'=' var
    → source fuel (export_lines ps) ≡ some ps
    → source (suc fuel) (export_line (var, value) ++ export_lines ps) ≡ some ((var, value) ∷ ps)
unfolding source export_line
source_line fuel var value ps lacks rest =
    rw (read_line-export var value (export_lines ps) lacks, rest)

Lacks-of : (s : Str) → all (λ c. not (c == b'=')) s ≡ true → Lacks b'=' s
Lacks-of [] h = tt
Lacks-of (c ∷ s) h =
    (λ e. ground arith, Lacks-of s (&&-right (not (c == b'=')) (all (λ c. not (c == b'=')) s) h))

lacking : (s : String) → all (λ c. not (c == b'=')) (codes s) ≡ true → Lacks b'=' (codes s)
lacking s = Lacks-of (codes s)

setup_pairs-names :
    (sh : Shell) (dirs : Dirs) {pairs : List (Str × Str)}
    → setup_pairs sh dirs ≡ ok pairs
    → All (λ p. Lacks b'=' p.0) pairs × (length pairs ≡ 5)
unfolding setup_pairs
setup_pairs-names sh dirs {pairs} e =
    let (root, _, t1) = >>=-eq-ok (demand sh (codes "NCAP_PROJECT_ROOT")) _ e in
    let (project, _, t2) = >>=-eq-ok (resolve_project sh dirs root) _ t1 in
    let (cache, _, t3) = >>=-eq-ok (cache_value sh dirs project) _ t2 in
    let (logs, _, t4) = >>=-eq-ok (logs_value sh dirs project) _ t3 in
    rw (← ok-injective t4) (
      (
        lacking "NCAP_PROJECT" refl,
        (
          lacking "NCAP_CONTAINER" refl,
          (
            lacking "NCAP_SOCKET" refl,
            (lacking "NCAP_CACHE_DIR" refl, (lacking "NCAP_LOG_DIR" refl, tt)),
          ),
        ),
      ),
      refl,
    )

source-export_lines :
    (fuel : ℕ) (ps : List (Str × Str))
    → All (λ p. Lacks b'=' p.0) ps
    → length ps < fuel
    → source fuel (export_lines ps) ≡ some ps
unfolding source export_lines
source-export_lines zero ps lacks h = absurd (omega arith)
source-export_lines (suc fuel) [] lacks h = refl
source-export_lines (suc fuel) ((var, value) ∷ ps) lacks h =
    source_line fuel var value ps lacks.0 (source-export_lines fuel ps lacks.1 (omega arith))

-- Sourcing the text that `setup_env` prints sets exactly the five variables, each to the value that was
-- resolved for it, whatever characters the value holds.
pub setup_env-source :
    (sh : Shell) (dirs : Dirs) {text : Str}
    → setup_env sh dirs ≡ ok text
    → (pairs : List (Str × Str)) × (setup_pairs sh dirs ≡ ok pairs) × (source 6 text ≡ some pairs)
unfolding setup_env
setup_env-source sh dirs {text} e =
    let (pairs, resolved, printed) = >>=-eq-ok (setup_pairs sh dirs) _ e in
    let (lacks, five) = setup_pairs-names sh dirs resolved in
    (
      pairs,
      resolved,
      rw (← ok-injective printed) (source-export_lines 6 pairs lacks (omega (arith, five))),
    )

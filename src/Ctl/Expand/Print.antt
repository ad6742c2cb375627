-- ===== src/Ctl/Expand/Print.antt =====
-- The expansion of a run option in src/ctl/mod.rs, piece by piece.
use nix_capsule.Prelude.{
  ==-false, length, length-append, Result, ok, err, ◌>>=◌, Str, ℕ, zero, suc, ◌≤◌, ◌≡◌, refl,
  Option, List, [], ◌∷◌, ◌++◌, append-nil, append_assoc, arith,
}
use nix_capsule.Ctl.Expand.{expand_dollar, expand_loop, expand_with}
use nix_capsule.Ctl.Expand.Pieces.{
  Piece, spelled, print, Fits, Proper, value, meaning, expand_dollar-bare, expand_dollar-braced,
  expand_dollar-odd, expand_dollar-unclosed, expand_dollar-lone,
}

shorter : (s rest : Str) (fuel : ℕ) → length (s ++ rest) ≤ fuel → length rest ≤ fuel
shorter s rest fuel h = omega (arith, length-append s rest)

spelled_nonempty : (p : Piece) (rest : Str) → ¬ length (spelled p ++ rest) ≤ 0
spelled_nonempty (Piece.literal c) rest h = omega arith
spelled_nonempty (Piece.braced name) rest h = omega arith
spelled_nonempty (Piece.bare name) rest h = omega arith
spelled_nonempty (Piece.odd body) rest h = omega arith
spelled_nonempty (Piece.unclosed body) rest h = omega arith
spelled_nonempty Piece.lone rest h = omega arith

module _ (lookup : Str → Option Str) where
  -- One turn of the loop at a `$`, given what the form behind it is.
  then_dollar :
      (fuel : ℕ) (out s : Str) (v : Result Str Str) (ps : List Piece)
      → expand_dollar lookup s ≡ (v, print ps)
      → ((o : Str) → expand_loop lookup fuel o (print ps) ≡ meaning lookup o ps)
      → expand_loop lookup (suc fuel) out (b'$' ∷ s) ≡ (v >>= λ w. meaning lookup (out ++ w) ps)
  unfolding expand_loop
  then_dollar fuel out s (ok w) ps e go = rw e (go (out ++ w))
  then_dollar fuel out s (err name) ps e go = rw e

  expand_loop-piece :
      (fuel : ℕ) (out : Str) (p : Piece) (ps : List Piece)
      → length (spelled p ++ print ps) ≤ suc fuel
      → Fits p (print ps)
      → (length (print ps) ≤ fuel
          → (o : Str) → expand_loop lookup fuel o (print ps) ≡ meaning lookup o ps)
      → expand_loop lookup (suc fuel) out (spelled p ++ print ps) ≡ meaning lookup out (p ∷ ps)
  unfolding expand_loop
  expand_loop-piece fuel out (Piece.literal c) ps h fits go =
      rw (==-false c b'$' fits) (go (omega arith) (out ++ c ∷ []))
  expand_loop-piece fuel out (Piece.braced name) ps h fits go =
      then_dollar fuel out _ (value lookup (Piece.braced name)) ps
        (rw (append_assoc name (b'}' ∷ []) (print ps))
          (expand_dollar-braced lookup name (print ps) fits))
        (go (shorter (b'{' ∷ (name ++ b'}' ∷ [])) (print ps) fuel (omega arith)))
  expand_loop-piece fuel out (Piece.bare name) ps h fits go =
      then_dollar fuel out _ (value lookup (Piece.bare name)) ps
        (expand_dollar-bare lookup name (print ps) fits.0 fits.1)
        (go (shorter name (print ps) fuel (omega arith)))
  expand_loop-piece fuel out (Piece.odd body) ps h fits go =
      then_dollar fuel out _ (value lookup (Piece.odd body)) ps
        (rw (append_assoc body (b'}' ∷ []) (print ps))
          (expand_dollar-odd lookup body (print ps) fits.0 fits.1))
        (go (shorter (b'{' ∷ (body ++ b'}' ∷ [])) (print ps) fuel (omega arith)))
  expand_loop-piece fuel out (Piece.unclosed body) ps h fits go =
      then_dollar fuel out _ (value lookup (Piece.unclosed body)) ps
        (rw (fits.1, append-nil body) (expand_dollar-unclosed lookup body fits.0))
        (go (shorter (b'{' ∷ body) (print ps) fuel (omega arith)))
  expand_loop-piece fuel out Piece.lone ps h fits go =
      then_dollar fuel out _ (value lookup Piece.lone) ps
        (expand_dollar-lone lookup (print ps) fits.0 fits.1) (go (omega arith))

  expand_loop-print :
      (fuel : ℕ) (out : Str) (ps : List Piece)
      → length (print ps) ≤ fuel
      → Proper ps
      → expand_loop lookup fuel out (print ps) ≡ meaning lookup out ps
  unfolding expand_loop
  expand_loop-print zero out [] h proper = refl
  expand_loop-print (suc fuel) out [] h proper = refl
  expand_loop-print zero out (p ∷ ps) h proper = absurd (spelled_nonempty p (print ps) h)
  expand_loop-print (suc fuel) out (p ∷ ps) h proper =
      expand_loop-piece fuel out p ps h proper.0 (λ fit o. expand_loop-print fuel o ps fit proper.1)

  -- The expansion of a text that is put together from its forms is their values in order, names
  -- replaced by what the lookup gives and all else as it is spelled, or the first name that is not set.
  pub expand_with-print :
      (ps : List Piece) → Proper ps → expand_with lookup (print ps) ≡ meaning lookup [] ps
  unfolding expand_with
  expand_with-print ps proper = expand_loop-print (length (print ps)) [] ps (omega arith) proper

-- ===== src/Ctl/Clean/Names.antt =====
-- Which names `clean` of src/ctl/mod.rs takes for its own.
use nix_capsule.Ctl.Clean.{digits_only, link_rest, is_link}
use nix_capsule.Ctl.Paths.{parse_epoch, parse_stem, parse_rest, parse_server_log_epoch}
use nix_capsule.Prelude.{
  Bool-cases, &&-right, all, Str, codes, str_eq, str_eq_sound, is_empty, is_ascii_digit,
  strip_prefix, strip_suffix, ℕ, ◌≡◌, refl, ap, inl, inr, true, false, not, ◌||◌, Option, none,
  some, [], ◌∷◌, ◌++◌, arith,
}

-- Digits and nothing else, but at least one.
abbrev pub Digits : Str → Type 0
Digits s = (is_empty s ≡ false) × (all is_ascii_digit s ≡ true)

some-equal : {a b : Str} → ◌≡◌ {A = Option Str} (some a) (some b) → a ≡ b
some-equal e = cc

strip_prefix_sound : (p s r : Str) → strip_prefix p s ≡ some r → s ≡ p ++ r
strip_prefix_sound [] s r e = cc
strip_prefix_sound (c ∷ p) [] r e = cc
strip_prefix_sound (c ∷ p) (d ∷ s) r e = ground (arith, strip_prefix_sound p s r)

suffix_step :
    (c : ℕ) (suf s r : Str) (rest : Option Str)
    → ((t : Str) → rest ≡ some t → s ≡ t ++ suf)
    → elim rest [ none ↦ none | some t ↦ some (c ∷ t) ] ≡ some r
    → c ∷ s ≡ r ++ suf
suffix_step c suf s r none each e = cc
suffix_step c suf s r (some t) each e = rw (← some-equal e, ← each t refl) refl

strip_suffix_sound : (suf s r : Str) → strip_suffix suf s ≡ some r → s ≡ r ++ suf
strip_suffix_sound suf [] r e = elim (Bool-cases (str_eq suf [])) [
  | inl same ↦ rw (← some-equal (rw same at e), str_eq_sound suf [] same) refl
  | inr apart ↦ cc (rw apart at e)
]
strip_suffix_sound suf (c ∷ s) r e = elim (Bool-cases (str_eq (c ∷ s) suf)) [
  | inl same ↦ rw (← some-equal (rw same at e)) (str_eq_sound (c ∷ s) suf same)
  | inr apart ↦
      suffix_step c suf s r (strip_suffix suf s) (strip_suffix_sound suf s) (rw apart at e)
]

digits_only_sound :
    (o : Option Str) → digits_only o ≡ true → (digits : Str) × (o ≡ some digits) × Digits digits
digits_only_sound none e = cc
digits_only_sound (some digits) e =
    (digits, refl, (ground (arith, e), &&-right (not (is_empty digits)) _ e))

link_rest_sound :
    (o : Option Str)
    → link_rest o ≡ true
    → (digits : Str) × (o ≡ some (digits ++ codes "-link")) × Digits digits
link_rest_sound none e = cc
link_rest_sound (some rest) e =
    let (digits, found, good) = digits_only_sound (strip_suffix (codes "-link") rest) e in
    (digits, ap some (strip_suffix_sound (codes "-link") rest digits found), good)

-- A generation link is `profile-`, digits, `-link`.
pub is_link_sound :
    (name : Str)
    → is_link name ≡ true
    → (digits : Str) × (name ≡ codes "profile-" ++ (digits ++ codes "-link")) × Digits digits
unfolding is_link
is_link_sound name e =
    let (digits, found, good) = link_rest_sound (strip_prefix (codes "profile-") name) e in
    (digits, strip_prefix_sound (codes "profile-") name _ found, good)

parse_epoch_sound : (s : Str) {epoch : ℕ} → parse_epoch s ≡ some epoch → Digits s
parse_epoch_sound s e = elim (Bool-cases (is_empty s || not (all is_ascii_digit s))) [
  | inl bad ↦ cc (rw bad at e)
  | inr good ↦ ground (arith, good)
]

parse_stem_sound :
    (o : Option Str) {epoch : ℕ}
    → parse_stem o ≡ some epoch
    → (digits : Str) × (o ≡ some digits) × Digits digits
parse_stem_sound none e = cc
parse_stem_sound (some digits) e = (digits, refl, parse_epoch_sound digits e)

parse_rest_sound :
    (o : Option Str) {epoch : ℕ}
    → parse_rest o ≡ some epoch
    → (digits : Str) × (o ≡ some (digits ++ codes ".log")) × Digits digits
parse_rest_sound none e = cc
parse_rest_sound (some rest) e =
    let (digits, found, good) = parse_stem_sound (strip_suffix (codes ".log") rest) e in
    (digits, ap some (strip_suffix_sound (codes ".log") rest digits found), good)

-- A server log is `ncap-server-`, digits, `.log`.
pub parse_server_log_epoch_sound :
    (name : Str) {epoch : ℕ}
    → parse_server_log_epoch name ≡ some epoch
    → (digits : Str) × (name ≡ codes "ncap-server-" ++ (digits ++ codes ".log")) × Digits digits
unfolding parse_server_log_epoch
parse_server_log_epoch_sound name e =
    let (digits, found, good) = parse_rest_sound (strip_prefix (codes "ncap-server-") name) e in
    (digits, strip_prefix_sound (codes "ncap-server-") name _ found, good)

-- ===== src/Ctl/Digest/Sorted.antt =====
-- The order in which src/ctl/digest.rs hashes the watched files.
use mathlib.Core.List.{Perm, Permᴰ, is_set}
use mathlib.Core.Logic.{∥∥₁_elim}
use nix_capsule.Ctl.Digest.{Files, insert, sort, compute}
use nix_capsule.Prelude.Chars.{str_lt}
use nix_capsule.Prelude.{
  if◌then◌else◌, Bool-cases, Bytes, Str, ℕ, ◌≡◌, refl, ◌∙◌, inl, inr, true, false, List, [], ◌∷◌,
  arith,
}

str_lt_trans : (a b c : Str) → str_lt a b ≡ true → str_lt b c ≡ true → str_lt a c ≡ true
str_lt_trans a b [] h k = cc
str_lt_trans a [] (z ∷ c) h k = cc
str_lt_trans [] (y ∷ b) (z ∷ c) h k = refl
str_lt_trans (x ∷ a) (y ∷ b) (z ∷ c) h k = ground (arith, str_lt_trans a b c)

str_lt-asymm : (a b : Str) → str_lt a b ≡ true → str_lt b a ≡ false
str_lt-asymm a [] h = cc
str_lt-asymm [] (y ∷ b) h = refl
str_lt-asymm (x ∷ a) (y ∷ b) h = ground (arith, str_lt-asymm a b)

str_lt-total : (a b : Str) → str_lt a b ≡ false → str_lt b a ≡ false → a ≡ b
str_lt-total [] [] h k = refl
str_lt-total [] (y ∷ b) h k = cc
str_lt-total (x ∷ a) [] h k = cc
str_lt-total (x ∷ a) (y ∷ b) h k = ground (arith, str_lt-total a b)

str_lt-same : (a : Str) → str_lt a a ≡ false
str_lt-same [] = refl
str_lt-same (x ∷ a) = ground (arith, str_lt-same a)

str_lt_mono : (a b c : Str) → str_lt b a ≡ false → str_lt b c ≡ true → str_lt a c ≡ true
str_lt_mono a b c h k = elim (Bool-cases (str_lt a b)) [
  | inl below ↦ str_lt_trans a b c below k
  | inr apart ↦ rw (str_lt-total a b apart h) k
]

-- Two insertions in front of `y` come to the same.
insert_both :
    (a b y : Str) (ys : List Str)
    → str_lt y a ≡ false
    → str_lt y b ≡ false
    → insert a (b ∷ y ∷ ys) ≡ (if str_lt a b then a ∷ b ∷ y ∷ ys else b ∷ a ∷ y ∷ ys)
unfolding insert
insert_both a b y ys ha hb = elim (Bool-cases (str_lt b a)) [
  | inl ba ↦ rw (ba, str_lt-asymm b a ba, ha)
  | inr ab ↦ elim (Bool-cases (str_lt a b)) [
    | inl less ↦ rw (ab, less)
    | inr more ↦ rw (ab, more, str_lt-total a b more ab)
  ]
]

-- `y` lies between: `a` goes behind it and `b` in front of it.
insert_around :
    (a b y : Str) (ys : List Str)
    → str_lt y a ≡ true
    → str_lt y b ≡ false
    → insert a (b ∷ y ∷ ys) ≡ b ∷ y ∷ insert a ys
unfolding insert
insert_around a b y ys ha hb = rw (str_lt_mono b y a hb ha, ha)

insert_comm : (a b : Str) (l : List Str) → insert a (insert b l) ≡ insert b (insert a l)
unfolding insert
insert_comm a b [] = elim (Bool-cases (str_lt b a)) [
  | inl ba ↦ rw (ba, str_lt-asymm b a ba)
  | inr ab ↦ elim (Bool-cases (str_lt a b)) [
    | inl less ↦ rw (ab, less)
    | inr more ↦ rw (ab, more, str_lt-total a b more ab)
  ]
]
insert_comm a b (y ∷ ys) = elim (Bool-cases (str_lt y a)) [
  | inl ya ↦ elim (Bool-cases (str_lt y b)) [
    | inl yb ↦ rw (ya, yb, insert_comm a b ys, ya)
    | inr by ↦ rw (ya, by) (insert_around a b y ys ya by)
  ]
  | inr ay ↦ elim (Bool-cases (str_lt y b)) [
    | inl yb ↦ rw (ay, yb, ay, str_lt_mono a y b ay yb)
    | inr by ↦ rw (ay, by) (insert_both a b y ys ay by)
  ]
]

sort-Permᴰ : {xs ys : List Str} → Permᴰ xs ys → sort xs ≡ sort ys
unfolding sort
sort-Permᴰ Permᴰ.nil = refl
sort-Permᴰ (Permᴰ.cons e p) = rw (e, sort-Permᴰ p)
sort-Permᴰ (Permᴰ.swap {a' = a'} {b' = b'} {l = l} e f) = rw (e, f) (insert_comm b' a' (sort l))
sort-Permᴰ (Permᴰ.trans p q) = sort-Permᴰ p ∙ sort-Permᴰ q

sort-Perm : (xs ys : List Str) → Perm xs ys → sort xs ≡ sort ys
sort-Perm xs ys p = ∥∥₁_elim p (is_set (is_set hlevel) (sort xs) (sort ys)) (λ d. sort-Permᴰ d)

-- The digest does not depend on the order in which the watched files are listed.
pub compute-Perm :
    (hash : Bytes → ℕ) (files : Files) (root : Str) (xs ys : List Str)
    → Perm xs ys
    → compute hash files root xs ≡ compute hash files root ys
unfolding compute
compute-Perm hash files root xs ys p = rw (sort-Perm xs ys p)

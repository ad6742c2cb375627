-- ===== src/Client/Env/Entries.antt =====
-- The list that `apply_entry` of src/client/mod.rs keeps, read as a map.
use nix_capsule.Prelude.{
  if◌then◌else◌, Str, str_eq, str_eq_iff, ◌≡◌, refl, Bool, true, false, not, ◌&&◌, ◌||◌, Option,
  none, some, List, [], ◌∷◌, ◌++◌, arith,
}
use nix_capsule.Client.Env.{Entry, apply_entry}

-- The value of a key: that of its first entry.
unfoldable pub value_of : Str → List Entry → Option Str
value_of key [] = none
value_of key ((existing, value) ∷ entries) =
    if str_eq existing key then some value else value_of key entries

unfoldable pub keys : List Entry → List Str
keys [] = []
keys ((key, value) ∷ entries) = key ∷ keys entries

unfoldable pub has_key : Str → List Str → Bool
has_key key [] = false
has_key key (k ∷ ks) = str_eq k key || has_key key ks

-- No key stands twice.
unfoldable pub distinct : List Str → Bool
unfolding has_key
distinct [] = true
distinct (k ∷ ks) = not (has_key k ks) && distinct ks

pub value_of-apply_entry :
    (j k v : Str) (es : List Entry)
    → value_of j (apply_entry es k v) ≡ (if str_eq k j then some v else value_of j es)
unfolding value_of apply_entry
value_of-apply_entry j k v [] = refl
value_of-apply_entry j k v ((i, w) ∷ es) =
    ground (arith, value_of-apply_entry j k v es, str_eq_iff i k, str_eq_iff i j, str_eq_iff k j)

-- A known key keeps its place; a new one goes to the end.
pub keys-apply_entry :
    (k v : Str) (es : List Entry)
    → keys (apply_entry es k v) ≡ (if has_key k (keys es) then keys es else keys es ++ k ∷ [])
unfolding keys has_key apply_entry
keys-apply_entry k v [] = refl
keys-apply_entry k v ((i, w) ∷ es) = ground (arith, keys-apply_entry k v es)

has_key-append :
    (j k : Str) (ks : List Str) → has_key j (ks ++ k ∷ []) ≡ (has_key j ks || str_eq k j)
unfolding has_key
has_key-append j k [] = ground arith
has_key-append j k (i ∷ ks) = ground (arith, has_key-append j k ks)

distinct-append :
    (k : Str) (ks : List Str)
    → distinct ks ≡ true
    → has_key k ks ≡ false
    → distinct (ks ++ k ∷ []) ≡ true
unfolding distinct
distinct-append k [] d h = refl
distinct-append k (i ∷ ks) d h =
    ground (arith, distinct-append k ks, has_key-append i k ks, str_eq_iff i k, str_eq_iff k i)

pub distinct-apply_entry :
    (k v : Str) (es : List Entry)
    → distinct (keys es) ≡ true
    → distinct (keys (apply_entry es k v)) ≡ true
distinct-apply_entry k v es d = ground (arith, keys-apply_entry k v es, distinct-append k (keys es))

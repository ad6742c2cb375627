-- ===== src/Client/Env/Merge.antt =====
-- What the environment that `build_env` of src/client/mod.rs sends says of each key.
use nix_capsule.Prelude.{
  if◌then◌else◌, Option-cases, Result, ok, ◌>>=◌, Result-cases, ok-injective, >>=-eq-ok, Str,
  str_eq, ◌≡◌, refl, ap, ◌∙◌, inl, inr, true, Option, none, some, List, [], ◌∷◌, ◌++◌, map,
}
use nix_capsule.Client.Errors.{ClientError}
use nix_capsule.Client.Env.{
  OsString, Entry, apply_entry, render, Process, resolve_flag, forward_loop, apply_option,
  flag_loop, forwarded_names, build_env,
}
use nix_capsule.Client.Env.Entries.{
  value_of, keys, distinct, value_of-apply_entry, distinct-apply_entry,
}

module _ (p : Process) where
  abbrev cons_found : Str → Option OsString → List Entry → List Entry
  cons_found name none rest = rest
  cons_found name (some value) rest = (name, p.to_string_lossy value) ∷ rest

  -- The entries that the forwarded names give, in order: unset names give none.
  unfoldable pub forwarded_entries : List Str → List Entry
  forwarded_entries [] = []
  forwarded_entries (name ∷ names) = cons_found name (p.var_os name) (forwarded_entries names)

  abbrev cons_option : Option Entry → List Entry → List Entry
  cons_option none es = es
  cons_option (some e) es = e ∷ es

  -- The entries that the flags give, in order, or the first flag's error.
  unfoldable pub flag_entries : List OsString → Result ClientError (List Entry)
  flag_entries [] = ok []
  flag_entries (flag ∷ cli) =
      resolve_flag p flag >>= λ o. flag_entries cli >>= λ es. ok (cons_option o es)

  -- The value that the last entry of a key gives, else `before`.
  unfoldable pub last_value : Str → Option Str → List Entry → Option Str
  last_value key before [] = before
  last_value key before ((k, v) ∷ es) = last_value key (if str_eq k key then some v else before) es

  value_of-forward_loop :
      (key : Str) (names : List Str) (es : List Entry)
      → value_of key (forward_loop p names es)
        ≡ last_value key (value_of key es) (forwarded_entries names)
  unfolding forward_loop forwarded_entries last_value
  value_of-forward_loop key [] es = refl
  value_of-forward_loop key (name ∷ names) es = elim (Option-cases (p.var_os name)) [
    | inl unset ↦ rw unset (value_of-forward_loop key names es)
    | inr (v, set) ↦ rw set (
        rw (value_of-forward_loop key names (apply_entry es name (p.to_string_lossy v)))
          (rw (value_of-apply_entry key name (p.to_string_lossy v) es)))
  ]

  distinct-forward_loop :
      (names : List Str) (es : List Entry)
      → distinct (keys es) ≡ true
      → distinct (keys (forward_loop p names es)) ≡ true
  unfolding forward_loop
  distinct-forward_loop [] es d = d
  distinct-forward_loop (name ∷ names) es d = elim (Option-cases (p.var_os name)) [
    | inl unset ↦ rw unset (distinct-forward_loop names es d)
    | inr (v, set) ↦ rw set (distinct-forward_loop names _ (distinct-apply_entry name _ es d))
  ]

  distinct-apply_option :
      (o : Option Entry) (es : List Entry)
      → distinct (keys es) ≡ true
      → distinct (keys (apply_option p es o)) ≡ true
  distinct-apply_option none es d = d
  distinct-apply_option (some (k, v)) es d = distinct-apply_entry k v es d

  distinct-flag_loop :
      (cli : List OsString) (es : List Entry) {out : List Entry}
      → distinct (keys es) ≡ true
      → flag_loop p cli es ≡ ok out
      → distinct (keys out) ≡ true
  unfolding flag_loop
  distinct-flag_loop [] es d e = rw (ok-injective e) at d
  distinct-flag_loop (flag ∷ cli) es {out} d e = elim (Result-cases (resolve_flag p flag)) [
    | inl (o, eo) ↦
        distinct-flag_loop cli (apply_option p es o) {out = out} (distinct-apply_option o es d)
          (rw eo at e)
    | inr (x, ex) ↦ absurd (cc (rw ex at e))
  ]

  last_value-option :
      (key : Str) (o : Option Entry) (es fs : List Entry)
      → last_value key (value_of key (apply_option p es o)) fs
        ≡ last_value key (value_of key es) (cons_option o fs)
  unfolding last_value
  last_value-option key none es fs = refl
  last_value-option key (some (k, v)) es fs = rw (value_of-apply_entry key k v es)

  value_of-flag_loop :
      (key : Str) (cli : List OsString) (es : List Entry) {out fs : List Entry}
      → flag_loop p cli es ≡ ok out
      → flag_entries cli ≡ ok fs
      → value_of key out ≡ last_value key (value_of key es) fs
  unfolding flag_loop flag_entries
  value_of-flag_loop key [] es e f =
      rw (← ok-injective e, ← ok-injective f) (unfold last_value in refl)
  value_of-flag_loop key (flag ∷ cli) es {out} {fs} e f =
      let (o, eo, e') = >>=-eq-ok (resolve_flag p flag) _ e in
      let (gs, eg, f') = >>=-eq-ok (flag_entries cli) _ (rw eo at f) in
      value_of-flag_loop key cli (apply_option p es o) {out = out} {fs = gs} e' eg
      ∙ last_value-option key o es gs
      ∙ ap (last_value key (value_of key es)) (ok-injective f')

  last_value-append :
      (key : Str) (before : Option Str) (xs ys : List Entry)
      → last_value key before (xs ++ ys) ≡ last_value key (last_value key before xs) ys
  unfolding last_value
  last_value-append key before [] ys = refl
  last_value-append key before ((k, v) ∷ xs) ys =
      last_value-append key (if str_eq k key then some v else before) xs ys

  flag_loop-total :
      (cli : List OsString) (es : List Entry) {fs : List Entry}
      → flag_entries cli ≡ ok fs
      → (out : List Entry) × (flag_loop p cli es ≡ ok out)
  unfolding flag_loop flag_entries
  flag_loop-total [] es f = (es, refl)
  flag_loop-total (flag ∷ cli) es {fs} f =
      let (o, eo, f') = >>=-eq-ok (resolve_flag p flag) _ f in
      let (gs, eg, _) = >>=-eq-ok (flag_entries cli) _ f' in
      let (out, e) = flag_loop-total cli (apply_option p es o) {fs = gs} eg in (out, rw eo e)

  -- If the forwarded list parses and every flag resolves, `build_env` succeeds. The entries that it
  -- renders have no key twice, and give each key the value of the last flag that sets it, else the
  -- value of the last forwarded name that is set, else none.
  pub build_env_merges :
      (cli : List OsString) (forward : Option Str) (names : List Str) (fs : List Entry)
      → forwarded_names p forward ≡ ok names
      → flag_entries cli ≡ ok fs
      → (es : List Entry) × (build_env p cli forward ≡ ok (map render es))
        × (distinct (keys es) ≡ true)
        × ((key : Str) → value_of key es ≡ last_value key none (forwarded_entries names ++ fs))
  unfolding build_env
  build_env_merges cli forward names fs en ef =
      let start = forward_loop p names [] in
      let (es, ee) = flag_loop-total cli start {fs = fs} ef in
      (
        es,
        rw (en, ee),
        distinct-flag_loop cli start {out = es}
            (distinct-forward_loop names [] (unfold distinct keys in refl)) ee,
        λ key.
            value_of-flag_loop key cli start {out = es} {fs = fs} ee ef
            ∙ ap (λ o. last_value key o fs) (value_of-forward_loop key names [])
            ∙ rw last_value-append (unfold value_of in refl),
      )

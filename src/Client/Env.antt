-- ===== src/Client/Env.antt =====
-- `build_env`, `resolve_flag`, `apply_entry` and `build_request` of src/client/mod.rs.
pub mod Entries
pub mod Merge
pub mod Accepted
use mathlib.Core.Option
use nix_capsule.Prelude.{
  if◌then◌else◌, Result, ok, err, ◌>>=◌, map_err, Bytes, Str, codes, str_eq, is_empty, split_once,
  Option, none, some, List, [], ◌∷◌, ◌++◌, map,
}
use nix_capsule.Client.Errors.{ClientError}
use nix_capsule.Prelude.Io.{IoError}
use nix_capsule.Protocol.Message.{Request}

-- An `OsString`: any bytes.
abbrev pub OsString : Type 0
OsString = Bytes

abbrev pub Entry : Type 0
Entry = Str × Str

-- The first entry of the key is replaced in place; a new key goes to the end.
unfoldable pub apply_entry : List Entry → Str → Str → List Entry
apply_entry [] key value = (key, value) ∷ []
apply_entry ((existing, old) ∷ entries) key value =
    if str_eq existing key
    then (existing, value) ∷ entries
    else (existing, old) ∷ apply_entry entries key value

-- `format!("{key}={value}")`
abbrev pub render : Entry → Str
render (key, value) = key ++ b'=' ∷ value

-- What the process and the libraries give: `to_string_lossy`, `serde_json::from_str` at
-- `Vec<String>`, the process environment (`std::env::var_os`) and the current directory.
pub record Process : Type 0 where
  pub to_string_lossy : OsString → Str
  pub names_of_json : Str → Result Str (List Str)
  pub var_os : Str → Option OsString
  pub working_dir : Result IoError OsString

module _ (p : Process) where
  explicit : Str → Option (Str × Str) → Result ClientError (Option Entry)
  explicit flag (some ([], value)) = err (ClientError.env_flag flag)
  explicit flag (some (c ∷ key, value)) = ok (some (c ∷ key, value))
  explicit flag none =
      if is_empty flag
      then err (ClientError.env_flag flag)
      else ok (Option.map (λ v. (flag, p.to_string_lossy v)) (p.var_os flag))

  unfoldable pub resolve_flag : OsString → Result ClientError (Option Entry)
  unfolding explicit
  resolve_flag raw = let flag = p.to_string_lossy raw in explicit flag (split_once b'=' flag)

  abbrev apply_found : List Entry → Str → Option OsString → List Entry
  apply_found entries name none = entries
  apply_found entries name (some value) = apply_entry entries name (p.to_string_lossy value)

  -- `for name in &names`
  unfoldable pub forward_loop : List Str → List Entry → List Entry
  forward_loop [] entries = entries
  forward_loop (name ∷ names) entries =
      forward_loop names (apply_found entries name (p.var_os name))

  abbrev apply_option : List Entry → Option Entry → List Entry
  apply_option entries none = entries
  apply_option entries (some (key, value)) = apply_entry entries key value

  -- `for flag in cli`
  unfoldable pub flag_loop : List OsString → List Entry → Result ClientError (List Entry)
  flag_loop [] entries = ok entries
  flag_loop (flag ∷ cli) entries = resolve_flag flag >>= λ o. flag_loop cli (apply_option entries o)

  unfoldable pub forwarded_names : Option Str → Result ClientError (List Str)
  forwarded_names none = ok []
  forwarded_names (some raw) = map_err ClientError.forward_env (p.names_of_json raw)

  unfoldable pub build_env : List OsString → Option Str → Result ClientError (List Str)
  build_env cli forward = forwarded_names forward >>= λ names.
      flag_loop cli (forward_loop names []) >>= λ entries. ok (map render entries)

  abbrev pub choose_cwd : Option OsString → Result ClientError OsString
  choose_cwd (some cwd) = ok cwd
  choose_cwd none = map_err ClientError.current_dir p.working_dir

  -- The command is its name and its arguments: `session` is never called with an empty one.
  unfoldable pub build_request :
      Option OsString → List OsString → OsString → List OsString → Result ClientError Request
  build_request cwd env name args = choose_cwd cwd >>= λ dir.
      build_env env (Option.map p.to_string_lossy (p.var_os (codes "NCAP_ENV_FORWARD"))) >>= λ vars.
      ok (record {
        command = p.to_string_lossy name;
        args = map p.to_string_lossy args;
        cwd = p.to_string_lossy dir;
        env = vars;
      })

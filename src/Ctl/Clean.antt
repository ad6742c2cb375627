-- ===== src/Ctl/Clean.antt =====
-- `clean` of src/ctl/mod.rs, over a machine.
pub mod Names
pub mod Own
use nix_capsule.Ctl.Flows.{runtime_of}
use nix_capsule.Ctl.Config.{Config}
use nix_capsule.Ctl.Machine.{Call, Machine, Program, return, throw, ◌>>=◌, ◌>>◌, ignore}
use nix_capsule.Ctl.Errors.{FsError, CtlError}
use nix_capsule.Ctl.Arguments.{parent}
use nix_capsule.Ctl.Layout.{join, cache_dir, log_dir, env_file, hash_file, profile_file}
use nix_capsule.Ctl.Paths.{parse_server_log_epoch}
use nix_capsule.Ctl.Stamp.{project_stamp_file}
use nix_capsule.Ctl.Runtime.{is_running, stop, remove}
use nix_capsule.Prelude.Io.{ErrorKind, not_found, IoError}
use nix_capsule.Prelude.{
  all, Result, ok, err, Str, codes, is_empty, is_ascii_digit, strip_prefix, strip_suffix, ℕ, Bool,
  true, false, not, ◌&&◌, Option, none, some, List, [], ◌∷◌,
}

abbrev unless_gone : Str → ErrorKind → IoError → Result CtlError (Unit {0})
unless_gone path ErrorKind.not_found e = ok tt
unless_gone path _ e = err (CtlError.fs (FsError.remove path e))

abbrev removal : Str → Option IoError → Result CtlError (Unit {0})
removal path none = ok tt
removal path (some e) = unless_gone path e.kind e

-- A removal that must find its file.
abbrev removed : Str → Option IoError → Result CtlError (Unit {0})
removed path none = ok tt
removed path (some e) = err (CtlError.fs (FsError.remove path e))

abbrev pub digits_only : Option Str → Bool
digits_only none = false
digits_only (some digits) = not (is_empty digits) && all is_ascii_digit digits

abbrev pub link_rest : Option Str → Bool
link_rest none = false
link_rest (some rest) = digits_only (strip_suffix (codes "-link") rest)

-- `profile-<N>-link`
unfoldable pub is_link : Str → Bool
is_link name = link_rest (strip_prefix (codes "profile-") name)

-- The entries in the order of the iteration; an entry that cannot be read ends it.
abbrev pub each_entry :
    Str
    → (Str → Program CtlError (Unit {0}))
    → List (Result IoError Str)
    → Program CtlError (Unit {0})
each_entry dir f [] = return tt
each_entry dir f (err e ∷ entries) = throw (CtlError.fs (FsError.read_dir dir e))
each_entry dir f (ok name ∷ entries) = f name >> each_entry dir f entries

abbrev pub unlisted : Str → ErrorKind → IoError → Program CtlError (Unit {0})
unlisted dir ErrorKind.not_found e = return tt
unlisted dir _ e = throw (CtlError.fs (FsError.read_dir dir e))

abbrev pub listed :
    Str
    → (List (Result IoError Str) → Program CtlError (Unit {0}))
    → Result IoError (List (Result IoError Str))
    → Program CtlError (Unit {0})
listed dir each (ok entries) = each entries
listed dir each (err e) = unlisted dir e.kind e

module _ (m : Machine) where
  abbrev pub remove_file_if_exists : Str → Program CtlError (Unit {0})
  remove_file_if_exists path h = (removal path (m.remove_file h path), Call.remove_file path ∷ h)

  -- Best effort, and only an empty directory goes.
  abbrev pub remove_dir : Str → Program CtlError (Unit {0})
  remove_dir dir h = (ok tt, Call.remove_dir dir ∷ h)

  abbrev pub unlink : Str → Result IoError Bool → Program CtlError (Unit {0})
  unlink path (err e) h = (err (CtlError.fs (FsError.read path e)), h)
  unlink path (ok true) h = (removed path (m.remove_tree h path), Call.remove_tree path ∷ h)
  unlink path (ok false) h = (removed path (m.remove_file h path), Call.remove_file path ∷ h)

  abbrev pub link_entry : Str → Bool → Program CtlError (Unit {0})
  link_entry path false h = (ok tt, h)
  link_entry path true h = unlink path (m.symlink_is_dir h path) h

  unfoldable pub remove_profile_generation_links : Str → Program CtlError (Unit {0})
  unfolding is_link
  remove_profile_generation_links dir h =
      listed dir (each_entry dir (λ name. link_entry (join dir name) (is_link name)))
        (m.read_dir h dir) h

  unfoldable pub clean_cache_dir : Str → Program CtlError (Unit {0})
  unfolding remove_profile_generation_links
  clean_cache_dir dir =
      remove_file_if_exists (env_file dir)
      >> remove_file_if_exists (hash_file dir)
      >> remove_file_if_exists (profile_file dir)
      >> remove_file_if_exists (project_stamp_file dir)
      >> remove_profile_generation_links dir
      >> remove_dir dir

  abbrev pub log_entry : Str → Option ℕ → Program CtlError (Unit {0})
  log_entry path none = return tt
  log_entry path (some epoch) = remove_file_if_exists path

  abbrev pub log_entries : Str → List (Result IoError Str) → Program CtlError (Unit {0})
  log_entries dir entries =
      each_entry dir (λ name. log_entry (join dir name) (parse_server_log_epoch name)) entries
      >> remove_dir dir

  unfoldable pub clean_log_dir : Str → Program CtlError (Unit {0})
  clean_log_dir dir h = listed dir (log_entries dir) (m.read_dir h dir) h

  module _ (cfg : Config) where
    abbrev pub stop_running : Bool → Program CtlError (Unit {0})
    stop_running false = return tt
    stop_running true = ignore (stop m (runtime_of cfg))

    abbrev pub socket_removed : Option Str → Program CtlError (Unit {0})
    socket_removed none = return tt
    socket_removed (some dir) = remove_file_if_exists cfg.socket >> remove_dir dir

    unfoldable pub clean : Program CtlError (Unit {0})
    unfolding clean_cache_dir clean_log_dir
    clean =
        (is_running m (runtime_of cfg) >>= stop_running)
        >> ignore (remove m (runtime_of cfg))
        >> clean_cache_dir cfg.cache_dir
        >> clean_log_dir cfg.log_dir
        >> socket_removed (parent cfg.socket)

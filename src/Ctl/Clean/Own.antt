-- ===== src/Ctl/Clean/Own.antt =====
-- What `clean` of src/ctl/mod.rs touches.
use nix_capsule.Ctl.Clean.Names.{Digits, is_link_sound, parse_server_log_epoch_sound}
use nix_capsule.Ctl.Flows.{runtime_of, start}
use nix_capsule.Ctl.Clean.{
  is_link, each_entry, unlisted, listed, remove_file_if_exists, remove_dir, unlink, link_entry,
  remove_profile_generation_links, clean_cache_dir, log_entry, log_entries, clean_log_dir,
  stop_running, socket_removed, clean,
}
use nix_capsule.Ctl.Machine.{Call, Machine, Program, return, throw, ◌>>=◌, ignore}
use nix_capsule.Ctl.Machine.Logic.{Keeps, bind-Keeps, Behind}
use nix_capsule.Ctl.Errors.{FsError, CtlError}
use nix_capsule.Ctl.Arguments.{parent}
use nix_capsule.Ctl.Config.{Config}
use nix_capsule.Ctl.Layout.{join, env_file, hash_file, profile_file}
use nix_capsule.Ctl.Paths.{parse_server_log_epoch}
use nix_capsule.Ctl.Stamp.{project_stamp_file}
use nix_capsule.Ctl.Runtime.{running_args, is_running, run_checked, stop, remove}
use nix_capsule.Prelude.Io.{ErrorKind, IoError}
use nix_capsule.Prelude.{
  Result, ok, err, Str, codes, ℕ, ◌≡◌, refl, Bool, true, false, Option, none, some, List, [], ◌∷◌,
  ◌++◌,
}

module _ (m : Machine) (cfg : Config) where
  -- The calls that `clean` may make: it inspects, stops and removes the container, and it removes the four
  -- cache files, generation links of the profile (a directory of such a name with all that is in it), server
  -- logs, the socket, and directories that are empty.
  pub data Own : Call → Type 0 where
    inspects : Own (Call.engine (running_args m (runtime_of cfg)))
    stops : Own (Call.engine (codes "stop" ∷ cfg.container ∷ []))
    removes : Own (Call.engine (codes "rm" ∷ cfg.container ∷ []))
    env : Own (Call.remove_file (env_file cfg.cache_dir))
    hash : Own (Call.remove_file (hash_file cfg.cache_dir))
    profile : Own (Call.remove_file (profile_file cfg.cache_dir))
    stamp : Own (Call.remove_file (project_stamp_file cfg.cache_dir))
    link :
        (digits : Str)
        → Digits digits
        → Own
            (Call.remove_file (join cfg.cache_dir (codes "profile-" ++ (digits ++ codes "-link"))))
    link_dir :
        (digits : Str)
        → Digits digits
        → Own
            (Call.remove_tree (join cfg.cache_dir (codes "profile-" ++ (digits ++ codes "-link"))))
    log :
        (digits : Str)
        → Digits digits
        → Own
            (Call.remove_file (join cfg.log_dir (codes "ncap-server-" ++ (digits ++ codes ".log"))))
    socket : Own (Call.remove_file cfg.socket)
    empty_cache : Own (Call.remove_dir cfg.cache_dir)
    empty_log : Own (Call.remove_dir cfg.log_dir)
    empty_parent : (dir : Str) → parent cfg.socket ≡ some dir → Own (Call.remove_dir dir)

  -- Behind the calls of `start` come only calls of its own.
  abbrev pub Tidied : List Call → List Call → Type 0
  Tidied start h = Behind Own start h

module _ (m : Machine) (cfg : Config) (start : List Call) where
  abbrev Tidy : {A : Type 0} → Program CtlError A → Type 0
  Tidy p = Keeps (Tidied m cfg start) p

  removing : (path : Str) → Own m cfg (Call.remove_file path) → Tidy (remove_file_if_exists m path)
  removing path own = record { keeps = λ h. Behind.more own }

  rmdir-Tidy : (dir : Str) → Own m cfg (Call.remove_dir dir) → Tidy (remove_dir m dir)
  rmdir-Tidy dir own = record { keeps = λ h. Behind.more own }

  return-Tidy : {A : Type 0} (a : A) → Tidy (return a)
  return-Tidy a = record { keeps = λ h held. held }

  throw-Tidy : {A : Type 0} (e : CtlError) → Tidy {A = A} (throw e)
  throw-Tidy e = record { keeps = λ h held. held }

  each_entry-Tidy :
      (dir : Str) (f : Str → Program CtlError (Unit {0}))
      → ((name : Str) → Tidy (f name))
      → (entries : List (Result IoError Str)) → Tidy (each_entry dir f entries)
  each_entry-Tidy dir f each [] = return-Tidy tt
  each_entry-Tidy dir f each (err e ∷ entries) = throw-Tidy (CtlError.fs (FsError.read_dir dir e))
  each_entry-Tidy dir f each (ok name ∷ entries) =
      bind-Keeps (Tidied m cfg start) (f name) _ (each name)
        (λ _. each_entry-Tidy dir f each entries)

  unlisted-Tidy : (dir : Str) (k : ErrorKind) (e : IoError) → Tidy (unlisted dir k e)
  unlisted-Tidy dir ErrorKind.not_found e = return-Tidy tt
  unlisted-Tidy dir ErrorKind.permission_denied e =
      throw-Tidy (CtlError.fs (FsError.read_dir dir e))
  unlisted-Tidy dir ErrorKind.broken_pipe e = throw-Tidy (CtlError.fs (FsError.read_dir dir e))
  unlisted-Tidy dir ErrorKind.interrupted e = throw-Tidy (CtlError.fs (FsError.read_dir dir e))
  unlisted-Tidy dir ErrorKind.other e = throw-Tidy (CtlError.fs (FsError.read_dir dir e))

  listed-Tidy :
      (dir : Str) (each : List (Result IoError Str) → Program CtlError (Unit {0}))
      → ((entries : List (Result IoError Str)) → Tidy (each entries))
      → (r : Result IoError (List (Result IoError Str))) → Tidy (listed dir each r)
  listed-Tidy dir each all_tidy (ok entries) = all_tidy entries
  listed-Tidy dir each all_tidy (err e) = unlisted-Tidy dir e.kind e

  unlink-Tidy :
      (path : Str) (r : Result IoError Bool)
      → Own m cfg (Call.remove_file path)
      → Own m cfg (Call.remove_tree path)
      → Tidy (unlink m path r)
  unlink-Tidy path (err e) file tree = record { keeps = λ h held. held }
  unlink-Tidy path (ok true) file tree = record { keeps = λ h. Behind.more tree }
  unlink-Tidy path (ok false) file tree = record { keeps = λ h. Behind.more file }

  link_entry-Tidy :
      (name : Str) (b : Bool) → is_link name ≡ b → Tidy (link_entry m (join cfg.cache_dir name) b)
  link_entry-Tidy name false e = record { keeps = λ h held. held }
  link_entry-Tidy name true e = record {
    keeps = λ h.
        let (digits, same, good) = is_link_sound name e in
        let path = join cfg.cache_dir name in
        (unlink-Tidy path (m.symlink_is_dir h path) (rw same (Own.link digits good))
            (rw same (Own.link_dir digits good))).keeps
          h;
  }

  links-Tidy : Tidy (remove_profile_generation_links m cfg.cache_dir)
  unfolding remove_profile_generation_links
  links-Tidy = record {
    keeps = λ h.
        (listed-Tidy cfg.cache_dir _
            (each_entry-Tidy cfg.cache_dir _ (λ name. link_entry-Tidy name (is_link name) refl))
            (m.read_dir h cfg.cache_dir)).keeps
          h;
  }

  clean_cache_dir-Tidy : Tidy (clean_cache_dir m cfg.cache_dir)
  unfolding clean_cache_dir
  clean_cache_dir-Tidy =
      let P = Tidied m cfg start in
      bind-Keeps P (remove_file_if_exists m (env_file cfg.cache_dir)) _ (removing _ Own.env) (λ _.
        bind-Keeps P (remove_file_if_exists m (hash_file cfg.cache_dir)) _ (removing _ Own.hash)
          (λ _.
            bind-Keeps P (remove_file_if_exists m (profile_file cfg.cache_dir)) _
              (removing _ Own.profile)
              (λ _.
                bind-Keeps P (remove_file_if_exists m (project_stamp_file cfg.cache_dir)) _
                  (removing _ Own.stamp)
                  (λ _.
                    bind-Keeps P (remove_profile_generation_links m cfg.cache_dir) _ links-Tidy
                      (λ _. rmdir-Tidy cfg.cache_dir Own.empty_cache)))))

  log_entry-Tidy :
      (name : Str) (o : Option ℕ)
      → parse_server_log_epoch name ≡ o
      → Tidy (log_entry m (join cfg.log_dir name) o)
  log_entry-Tidy name none e = return-Tidy tt
  log_entry-Tidy name (some epoch) e =
      let (digits, same, good) = parse_server_log_epoch_sound name e in
      removing (join cfg.log_dir name) (rw same (Own.log digits good))

  clean_log_dir-Tidy : Tidy (clean_log_dir m cfg.log_dir)
  unfolding clean_log_dir
  clean_log_dir-Tidy = record {
    keeps = λ h.
        (listed-Tidy cfg.log_dir (log_entries m cfg.log_dir)
            (λ entries.
              bind-Keeps (Tidied m cfg start) (each_entry cfg.log_dir _ entries) _
                (each_entry-Tidy cfg.log_dir _
                  (λ name. log_entry-Tidy name (parse_server_log_epoch name) refl) entries)
                (λ _. rmdir-Tidy cfg.log_dir Own.empty_log))
            (m.read_dir h cfg.log_dir)).keeps
          h;
  }

  socket_removed-Tidy : (o : Option Str) → parent cfg.socket ≡ o → Tidy (socket_removed m cfg o)
  socket_removed-Tidy none e = return-Tidy tt
  socket_removed-Tidy (some dir) e =
      bind-Keeps (Tidied m cfg start) (remove_file_if_exists m cfg.socket) _
        (removing cfg.socket Own.socket) (λ _. rmdir-Tidy dir (Own.empty_parent dir e))

  stop_running-Tidy : (b : Bool) → Tidy (stop_running m cfg b)
  unfolding stop run_checked
  stop_running-Tidy false = return-Tidy tt
  stop_running-Tidy true = record { keeps = λ h. Behind.more Own.stops }

  clean-Tidy : Tidy (clean m cfg)
  unfolding clean is_running remove run_checked
  clean-Tidy =
      let P = Tidied m cfg start in
      bind-Keeps P (is_running m (runtime_of cfg) >>= stop_running m cfg) _
        (bind-Keeps P (is_running m (runtime_of cfg)) _
          (record { keeps = λ h. Behind.more Own.inspects }) stop_running-Tidy)
        (λ _.
          bind-Keeps P (ignore (remove m (runtime_of cfg))) _
            (record { keeps = λ h. Behind.more Own.removes })
            (λ _. bind-Keeps P (clean_cache_dir m cfg.cache_dir) _ clean_cache_dir-Tidy (λ _.
              bind-Keeps P (clean_log_dir m cfg.log_dir) _ clean_log_dir-Tidy
                (λ _. socket_removed-Tidy (parent cfg.socket) refl))))

-- Whatever comes of `clean`, the only calls it makes inspect, stop and remove the container, and remove the
-- four cache files, the server logs, the socket, the profile's generation links `profile-N-link`, also a
-- directory of such a name with all that is in it, and, if they are empty, the cache directory, the log
-- directory and the socket's directory.
pub clean_removes_own :
    (m : Machine) (cfg : Config) (h : List Call) → Tidied m cfg h (clean m cfg h).1
clean_removes_own m cfg h = (clean-Tidy m cfg h).keeps h Behind.nothing

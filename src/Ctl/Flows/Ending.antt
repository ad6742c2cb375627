-- ===== src/Ctl/Flows/Ending.antt =====
-- The commands of src/ctl/mod.rs that start the container end.
use nix_capsule.Ctl.Machine.{Call, Machine, Program, ◌>>=◌, ◌>>◌, ignore, wrapped, attempt}
use nix_capsule.Ctl.Machine.Logic.{
  Avoids, return-Avoids, total-Avoids, bind-Avoids, map_err-ne, wrapped-Avoids,
}
use nix_capsule.Ctl.Flows.{
  runtime_of, stamp_guard, made_dir, made_private, dir_0700, ensure_dir_0700, written, freshness,
  digested, refill_cache, unless_fresh, ensure_cache, launch, remove_stopped, if_stopped,
  after_race, raced, name_taken, launched, socket_dir_made, arguments, start_dumped, start_inner,
  init_from, init, start_from, start, restart,
}
use nix_capsule.Ctl.Errors.{FsError, CtlError}
use nix_capsule.Ctl.Arguments.{parent}
use nix_capsule.Ctl.Arguments.Failing.{build_runtime_args-ne}
use nix_capsule.Ctl.Layout.{env_file, hash_file, profile_file}
use nix_capsule.Ctl.Digest.{Freshness, compute}
use nix_capsule.Ctl.Nix.{print_dev_env, wipe_history}
use nix_capsule.Ctl.Runtime.{RuntimeError, seen_running, is_running, is_live, stop, exists, remove}
use nix_capsule.Ctl.Version.{warn_on_skew}
use nix_capsule.Ctl.Config.{Config}
use nix_capsule.Prelude.Io.{IoError}
use nix_capsule.Prelude.Chars.{as_bytes}
use nix_capsule.Prelude.{
  Bool-cases, Result, ok, err, Bytes, Str, refl, ◌≢◌, inl, inr, Bool, true, false, Option, none,
  some, List,
}
use nix_capsule.Ctl.Flows.Waiting.{Paces, is_live_cases, await_live-Avoids}

module _ (m : Machine) (cfg : Config) (clock : Paces m) where
  -- Programs that never fail.
  ignored : {D A : Type 0} (p : Program D A) → Avoids CtlError.stuck (ignore p)
  ignored p = total-Avoids CtlError.stuck (ignore p) (λ h. (tt, refl))

  is_running-Avoids : Avoids CtlError.stuck (is_running m (runtime_of cfg))
  unfolding is_running
  is_running-Avoids =
      total-Avoids CtlError.stuck (is_running m (runtime_of cfg))
        (λ h. (seen_running m (runtime_of cfg) h, refl))

  after_race-Avoids : (args : List Str) (b : Bool) → Avoids CtlError.stuck (after_race m cfg args b)
  after_race-Avoids args true = return-Avoids CtlError.stuck tt
  after_race-Avoids args false =
      bind-Avoids CtlError.stuck (ignore (remove m (runtime_of cfg))) _
        (ignored (remove m (runtime_of cfg)))
        (λ _.
          bind-Avoids CtlError.stuck (wrapped CtlError.runtime (launch m cfg args)) _
            (wrapped-Avoids CtlError.stuck CtlError.runtime (λ x e. cc) (launch m cfg args))
            (λ _. await_live-Avoids m cfg clock))

  raced-Avoids :
      (args : List Str) (x : RuntimeError) (b : Bool) → Avoids CtlError.stuck (raced m cfg args x b)
  raced-Avoids args x true =
      bind-Avoids CtlError.stuck (is_running m (runtime_of cfg)) _ is_running-Avoids
        (after_race-Avoids args)
  raced-Avoids args x false = record { never = λ h e. cc }

  launched-Avoids :
      (args : List Str) (r : Result RuntimeError Str)
      → Avoids CtlError.stuck (launched m cfg args r)
  launched-Avoids args (ok id) = await_live-Avoids m cfg clock
  launched-Avoids args (err x) = raced-Avoids args x (name_taken m cfg x)

  attempt-ne :
      (f : IoError → FsError) (c : Call) (r : Option IoError) (h : List Call)
      → (attempt (λ e. CtlError.fs (f e)) c r h).0 ≢ err CtlError.stuck
  attempt-ne f c none h e = cc
  attempt-ne f c (some x) h e = cc

  made_dir-Avoids : (dir : Str) → Avoids CtlError.stuck (made_dir m dir)
  made_dir-Avoids dir = record {
    never = λ h. attempt-ne (FsError.create_dir dir) (Call.create_dir dir) (m.create_dir h dir) h;
  }

  written-Avoids : (path : Str) (bytes : Bytes) → Avoids CtlError.stuck (written m path bytes)
  written-Avoids path bytes = record {
    never = λ h. attempt-ne (FsError.write path) (Call.write path bytes) (m.write h path bytes) h;
  }

  made_private-Avoids : (dir : Str) → Avoids CtlError.stuck (made_private m dir)
  made_private-Avoids dir = record {
    never = λ h. attempt-ne (FsError.create_dir dir) (Call.set_private dir) (m.set_private h dir) h;
  }

  dir_0700-Avoids : (dir : Str) (b : Bool) → Avoids CtlError.stuck (dir_0700 m dir b)
  dir_0700-Avoids dir true = return-Avoids CtlError.stuck tt
  dir_0700-Avoids dir false =
      bind-Avoids CtlError.stuck (made_dir m dir) _ (made_dir-Avoids dir)
        (λ _. made_private-Avoids dir)

  socket_dir_made-Avoids : (dir : Option Str) → Avoids CtlError.stuck (socket_dir_made m cfg dir)
  unfolding socket_dir_made ensure_dir_0700
  socket_dir_made-Avoids none = return-Avoids CtlError.stuck tt
  socket_dir_made-Avoids (some dir) = record {
    never = λ h. (dir_0700-Avoids dir (m.exists h dir)).never h;
  }

  remove_stopped-Avoids : (b : Bool) → Avoids CtlError.stuck (remove_stopped m cfg false b)
  remove_stopped-Avoids false = return-Avoids CtlError.stuck tt
  remove_stopped-Avoids true = ignored (remove m (runtime_of cfg))

  if_stopped-Avoids : (b : Bool) → Avoids CtlError.stuck (if_stopped m cfg b)
  unfolding exists
  if_stopped-Avoids true = return-Avoids CtlError.stuck tt
  if_stopped-Avoids false =
      bind-Avoids CtlError.stuck (exists m (runtime_of cfg)) _
        (total-Avoids CtlError.stuck (exists m (runtime_of cfg)) (λ h. (_, refl)))
        remove_stopped-Avoids

  launching-Avoids :
      (args : List Str)
      → Avoids CtlError.stuck
          (λ h. launched m cfg args (launch m cfg args h).0 (launch m cfg args h).1)
  launching-Avoids args = record {
    never = λ h. (launched-Avoids args (launch m cfg args h).0).never (launch m cfg args h).1;
  }

  arguments-Avoids : Avoids CtlError.stuck (arguments m cfg)
  arguments-Avoids = record { never = build_runtime_args-ne m cfg }

  start_dumped-Avoids : Avoids CtlError.stuck (start_dumped m cfg)
  unfolding start_dumped
  start_dumped-Avoids =
      bind-Avoids CtlError.stuck (socket_dir_made m cfg (parent cfg.socket)) _
        (socket_dir_made-Avoids (parent cfg.socket))
        (λ _.
          bind-Avoids CtlError.stuck (made_dir m cfg.log_dir) _ (made_dir-Avoids cfg.log_dir) (λ _.
            bind-Avoids CtlError.stuck (arguments m cfg) _ arguments-Avoids (λ args.
              bind-Avoids CtlError.stuck (is_running m (runtime_of cfg) >>= if_stopped m cfg) _
                (bind-Avoids CtlError.stuck (is_running m (runtime_of cfg)) _ is_running-Avoids
                  if_stopped-Avoids)
                (λ _. launching-Avoids args))))

  start_inner-Avoids : Avoids CtlError.stuck (start_inner m cfg)
  unfolding start_inner
  start_inner-Avoids = record {
    never = λ h. elim (Bool-cases ((m.files h).is_file (env_file cfg.cache_dir))) [
      | inl there ↦ rw there (start_dumped-Avoids.never h)
      | inr gone ↦ rw gone (λ e. cc)
    ];
  }

  digested-Avoids : Avoids CtlError.stuck (digested m cfg)
  digested-Avoids = record {
    never = λ h.
        map_err-ne CtlError.stuck CtlError.digest (λ x e. cc)
          (compute m.hash (m.files h) cfg.root cfg.watch_files);
  }

  wipe_history-Avoids :
      (profile : Str) → Avoids CtlError.stuck (wipe_history m {E = CtlError} profile)
  unfolding wipe_history
  wipe_history-Avoids profile =
      total-Avoids CtlError.stuck (wipe_history m {E = CtlError} profile) (λ h. (tt, refl))

  refill_cache-Avoids : Avoids CtlError.stuck (refill_cache m cfg)
  unfolding refill_cache
  refill_cache-Avoids =
      bind-Avoids CtlError.stuck (made_dir m cfg.cache_dir) _ (made_dir-Avoids cfg.cache_dir) (λ _.
        bind-Avoids CtlError.stuck
          (wrapped CtlError.print_dev_env
            (print_dev_env m (profile_file cfg.cache_dir) cfg.devshell))
          _
          (wrapped-Avoids CtlError.stuck CtlError.print_dev_env (λ x e. cc)
            (print_dev_env m (profile_file cfg.cache_dir) cfg.devshell))
          (λ output.
            bind-Avoids CtlError.stuck (written m (env_file cfg.cache_dir) output) _
              (written-Avoids (env_file cfg.cache_dir) output)
              (λ _.
                bind-Avoids CtlError.stuck (wipe_history m (profile_file cfg.cache_dir)) _
                  (wipe_history-Avoids (profile_file cfg.cache_dir))
                  (λ _.
                    bind-Avoids CtlError.stuck (digested m cfg) _ digested-Avoids
                      (λ digest. written-Avoids (hash_file cfg.cache_dir) (as_bytes digest))))))

  ensure_cache-Avoids : Avoids CtlError.stuck (ensure_cache m cfg)
  unfolding ensure_cache
  ensure_cache-Avoids = record {
    never = λ h.
        elim (freshness m cfg h) as (λ f. (unless_fresh m cfg f h).0 ≢ err CtlError.stuck) [
          | Freshness.fresh ↦ λ e. cc
          | Freshness.stale ↦ refill_cache-Avoids.never h
          | Freshness.missing ↦ refill_cache-Avoids.never h
        ];
  }

  refilled-Avoids :
      Avoids CtlError.stuck
        (ensure_cache m cfg >> ignore (stop m (runtime_of cfg)) >> start_inner m cfg)
  refilled-Avoids = bind-Avoids CtlError.stuck (ensure_cache m cfg) _ ensure_cache-Avoids (λ _.
      bind-Avoids CtlError.stuck (ignore (stop m (runtime_of cfg))) _
        (ignored (stop m (runtime_of cfg))) (λ _. start_inner-Avoids))

  init_from-Avoids : (b : Bool) (f : Freshness) → Avoids CtlError.stuck (init_from m cfg b f)
  init_from-Avoids true Freshness.fresh = return-Avoids CtlError.stuck tt
  init_from-Avoids true Freshness.stale = refilled-Avoids
  init_from-Avoids true Freshness.missing = refilled-Avoids
  init_from-Avoids false f =
      bind-Avoids CtlError.stuck (ensure_cache m cfg) _ ensure_cache-Avoids
        (λ _. start_inner-Avoids)

  stamp_guard-Avoids : Avoids CtlError.stuck (stamp_guard m cfg.cache_dir cfg.project cfg.root)
  unfolding stamp_guard
  stamp_guard-Avoids = record {
    never = λ h. map_err-ne CtlError.stuck CtlError.stamp (λ x e. cc) _;
  }

  is_live-Avoids : Avoids CtlError.stuck (is_live m (runtime_of cfg) {E = CtlError} cfg.socket)
  is_live-Avoids =
      total-Avoids CtlError.stuck (is_live m (runtime_of cfg) cfg.socket)
        (is_live_cases m cfg clock cfg.socket)

  warn_on_skew-Avoids : Avoids CtlError.stuck (warn_on_skew m {E = CtlError} cfg.socket)
  unfolding warn_on_skew
  warn_on_skew-Avoids =
      total-Avoids CtlError.stuck (warn_on_skew m {E = CtlError} cfg.socket) (λ h. (tt, refl))

  init-Avoids : Avoids CtlError.stuck (init m cfg)
  unfolding init
  init-Avoids =
      bind-Avoids CtlError.stuck (stamp_guard m cfg.cache_dir cfg.project cfg.root) _
        stamp_guard-Avoids
        (λ _.
          bind-Avoids CtlError.stuck (is_live m (runtime_of cfg) cfg.socket)
            (λ live h. init_from m cfg live (freshness m cfg h) h) is_live-Avoids
            (λ live. record { never = λ h. (init_from-Avoids live (freshness m cfg h)).never h }))

  start_from-Avoids : (b : Bool) → Avoids CtlError.stuck (start_from m cfg b)
  start_from-Avoids true = warn_on_skew-Avoids
  start_from-Avoids false =
      bind-Avoids CtlError.stuck (start_inner m cfg) _ start_inner-Avoids (λ _. warn_on_skew-Avoids)

  start-Avoids : Avoids CtlError.stuck (start m cfg)
  unfolding start
  start-Avoids =
      bind-Avoids CtlError.stuck (stamp_guard m cfg.cache_dir cfg.project cfg.root) _
        stamp_guard-Avoids
        (λ _.
          bind-Avoids CtlError.stuck (is_live m (runtime_of cfg) cfg.socket) _ is_live-Avoids
            start_from-Avoids)

  restart-Avoids : Avoids CtlError.stuck (restart m cfg)
  unfolding restart
  restart-Avoids =
      bind-Avoids CtlError.stuck (ignore (stop m (runtime_of cfg))) _
        (ignored (stop m (runtime_of cfg))) (λ _. init-Avoids)

  -- With a clock that is never turned back and a sleep of at least its 100 milliseconds, `init`, `start`
  -- and `restart` never run out of the fuel that the model gives their loop, whatever the deadline.
  pub flows_end :
      (h : List Call)
      → ((init m cfg h).0 ≢ err CtlError.stuck)
        × (((start m cfg h).0 ≢ err CtlError.stuck) × ((restart m cfg h).0 ≢ err CtlError.stuck))
  flows_end h = (init-Avoids.never h, (start-Avoids.never h, restart-Avoids.never h))

-- ===== src/Ctl/Flows/Starting.antt =====
-- What `init`, `start` and `restart` of src/ctl/mod.rs touch, whatever comes of them.
use nix_capsule.Ctl.Machine.{Call, Machine, Program, ◌>>=◌, ◌>>◌, ignore, wrapped}
use nix_capsule.Prelude.{
  ltb, leb, Bool-cases, Result, ok, err, Str, ℕ, zero, suc, ◌+◌, ◌*◌, ◌≡◌, refl, inl, inr, Bool,
  true, false, List, ◌∷◌,
}
use nix_capsule.Ctl.Machine.Logic.{bind_seen-Keeps, bind-Keeps, Behind}
use nix_capsule.Ctl.Flows.{
  runtime_of, Wait, stamp_guard, made_dir, freshness, ensure_cache, server_args, launch,
  remove_stopped, if_stopped, polled, wait_live, waited, await_until, await_live, after_race, raced,
  name_taken, launched, socket_dir_made, arguments, start_dumped, start_inner, init_from, init,
  start_from, start, restart,
}
use nix_capsule.Ctl.Flows.Own.{
  Own, Touched, Touches, made_dir-Touches, socket_dir_made-Touches, stamp_guard-Touches,
  warn_on_skew-Touches, ensure_cache-Touches,
}
use nix_capsule.Ctl.Runtime.{
  RuntimeError, launch_command, is_running, connected, is_live, inspect_state, run_checked,
  run_detached, stop, exists, remove,
}
use nix_capsule.Ctl.Runtime.Launch.{launch_command-tokens}
use nix_capsule.Ctl.Layout.{env_file}
use nix_capsule.Ctl.Config.{Config}
use nix_capsule.Ctl.Errors.{CtlError}
use nix_capsule.Ctl.Digest.{Freshness}
use nix_capsule.Ctl.Arguments.{parent, build_runtime_args}

module _ (m : Machine) (cfg : Config) (begun : List Call) where
  abbrev P : List Call → Type 0
  P h = Touched m cfg begun h

  is_running-Touches : Touches m cfg begun (is_running m (runtime_of cfg) {E = CtlError})
  unfolding is_running
  is_running-Touches = record { keeps = λ h. Behind.more Own.inspects }

  connected-Touches :
      (b : Bool) → Touches m cfg begun (connected m (runtime_of cfg) {E = CtlError} cfg.socket b)
  connected-Touches false = record { keeps = λ h held. held }
  connected-Touches true = record { keeps = λ h. Behind.more Own.connects }

  is_live-Touches : Touches m cfg begun (is_live m (runtime_of cfg) {E = CtlError} cfg.socket)
  unfolding is_live
  is_live-Touches =
      bind-Keeps P (is_running m (runtime_of cfg)) _ is_running-Touches connected-Touches

  stopping-Touches : Touches m cfg begun (ignore {E = CtlError} (stop m (runtime_of cfg)))
  unfolding stop run_checked
  stopping-Touches = record { keeps = λ h. Behind.more Own.stops }

  removing-Touches : Touches m cfg begun (ignore {E = CtlError} (remove m (runtime_of cfg)))
  unfolding remove run_checked
  removing-Touches = record { keeps = λ h. Behind.more Own.removes }

  exists-Touches : Touches m cfg begun (exists m (runtime_of cfg) {E = CtlError})
  unfolding exists
  exists-Touches = record { keeps = λ h. Behind.more Own.looks_up }

  launch-Touches :
      (before : List Call) (options : List Str)
      → build_runtime_args m cfg before ≡ ok options
      → Touches m cfg begun (launch m cfg options)
  unfolding run_detached run_checked
  launch-Touches before options made = record {
    keeps = λ h. Behind.more (
        Own.launches before options
          (launch_command (env_file cfg.cache_dir) cfg.server (server_args m cfg)) made
          (launch_command-tokens (env_file cfg.cache_dir) cfg.server (server_args m cfg)));
  }

  polled-Touches :
      (deadline : ℕ) (again : Program CtlError Wait) (b : Bool)
      → Touches m cfg begun again
      → Touches m cfg begun (polled m cfg deadline again b)
  polled-Touches deadline again true later = record { keeps = λ h held. held }
  polled-Touches deadline again false later = record {
    keeps = λ h held. elim (Bool-cases (leb deadline (m.now h))) [
      | inl past ↦ rw past held
      | inr early ↦ rw early (later.keeps (Call.pause ∷ h) (Behind.more Own.pauses held))
    ];
  }

  wait_live-Touches : (fuel deadline : ℕ) → Touches m cfg begun (wait_live m cfg fuel deadline)
  unfolding wait_live
  wait_live-Touches zero deadline = record { keeps = λ h held. held }
  wait_live-Touches (suc fuel) deadline = record {
    keeps =
        (bind-Keeps P (is_live m (runtime_of cfg) cfg.socket) _ is_live-Touches (λ b.
          polled-Touches deadline (wait_live m cfg fuel deadline) b
            (wait_live-Touches fuel deadline))).keeps;
  }

  waited-Touches : (w : Wait) → Touches m cfg begun (waited m cfg w)
  unfolding inspect_state
  waited-Touches Wait.live = record { keeps = λ h held. held }
  waited-Touches Wait.stuck = record { keeps = λ h held. held }
  waited-Touches Wait.expired = record { keeps = λ h. Behind.more Own.reports }

  await_until-Touches : (deadline : ℕ) → Touches m cfg begun (await_until m cfg deadline)
  await_until-Touches deadline =
      bind-Keeps P (wait_live m cfg (suc (cfg.timeout * 10)) deadline) _
        (wait_live-Touches (suc (cfg.timeout * 10)) deadline) waited-Touches

  await_live-Touches : Touches m cfg begun (await_live m cfg)
  unfolding await_live
  await_live-Touches = record {
    keeps = λ h held.
        let deadline = m.now h + cfg.timeout * 1000 in
        elim (Bool-cases (ltb m.last_instant deadline)) [
          | inl over ↦ rw over held
          | inr within ↦ rw within ((await_until-Touches deadline).keeps h held)
        ];
  }

  -- The options are what `build_runtime_args` gave.
  module _ (before : List Call) (options : List Str)
      (made : build_runtime_args m cfg before ≡ ok options) where
    after_race-Touches : (b : Bool) → Touches m cfg begun (after_race m cfg options b)
    after_race-Touches true = record { keeps = λ h held. held }
    after_race-Touches false =
        bind-Keeps P (ignore (remove m (runtime_of cfg))) _ removing-Touches (λ _.
          bind-Keeps P (wrapped CtlError.runtime (launch m cfg options)) _
            (record { keeps = (launch-Touches before options made).keeps })
            (λ _. await_live-Touches))

    raced-Touches : (x : RuntimeError) (b : Bool) → Touches m cfg begun (raced m cfg options x b)
    raced-Touches x true =
        bind-Keeps P (is_running m (runtime_of cfg)) _ is_running-Touches after_race-Touches
    raced-Touches x false = record { keeps = λ h held. held }

    launched-Touches :
        (r : Result RuntimeError Str) → Touches m cfg begun (launched m cfg options r)
    launched-Touches (ok id) = await_live-Touches
    launched-Touches (err x) = raced-Touches x (name_taken m cfg x)

    launching-Touches :
        Touches m cfg begun
          (λ h. launched m cfg options (launch m cfg options h).0 (launch m cfg options h).1)
    launching-Touches = record {
      keeps = λ h held.
          (launched-Touches (launch m cfg options h).0).keeps (launch m cfg options h).1
            ((launch-Touches before options made).keeps h held);
    }

  if_stopped-Touches : (b : Bool) → Touches m cfg begun (if_stopped m cfg b)
  if_stopped-Touches true = record { keeps = λ h held. held }
  if_stopped-Touches false = bind-Keeps P (exists m (runtime_of cfg)) _ exists-Touches (λ there.
      elim there as (λ there. Touches m cfg begun (remove_stopped m cfg false there)) [
        | true ↦ removing-Touches
        | false ↦ record { keeps = λ h held. held }
      ])

  start_dumped-Touches : Touches m cfg begun (start_dumped m cfg)
  unfolding start_dumped
  start_dumped-Touches =
      bind-Keeps P (socket_dir_made m cfg (parent cfg.socket)) _
        (socket_dir_made-Touches m cfg begun (parent cfg.socket) refl)
        (λ _.
          bind-Keeps P (made_dir m cfg.log_dir) _
            (made_dir-Touches m cfg begun cfg.log_dir Own.makes_log)
            (λ _.
              bind_seen-Keeps P (arguments m cfg) _ (record { keeps = λ h held. held })
                (λ before options made.
                  bind-Keeps P (is_running m (runtime_of cfg) >>= if_stopped m cfg) _
                    (bind-Keeps P (is_running m (runtime_of cfg)) _ is_running-Touches
                      if_stopped-Touches)
                    (λ _. launching-Touches before options made))))

  start_inner-Touches : Touches m cfg begun (start_inner m cfg)
  unfolding start_inner
  start_inner-Touches = record {
    keeps = λ h held. elim (Bool-cases ((m.files h).is_file (env_file cfg.cache_dir))) [
      | inl there ↦ rw there (start_dumped-Touches.keeps h held)
      | inr gone ↦ rw gone held
    ];
  }

  refilled-Touches :
      Touches m cfg begun
        (ensure_cache m cfg >> ignore (stop m (runtime_of cfg)) >> start_inner m cfg)
  refilled-Touches = bind-Keeps P (ensure_cache m cfg) _ (ensure_cache-Touches m cfg begun) (λ _.
      bind-Keeps P (ignore (stop m (runtime_of cfg))) _ stopping-Touches (λ _. start_inner-Touches))

  init_from-Touches : (b : Bool) (f : Freshness) → Touches m cfg begun (init_from m cfg b f)
  init_from-Touches true Freshness.fresh = record { keeps = λ h held. held }
  init_from-Touches true Freshness.stale = refilled-Touches
  init_from-Touches true Freshness.missing = refilled-Touches
  init_from-Touches false f =
      bind-Keeps P (ensure_cache m cfg) _ (ensure_cache-Touches m cfg begun)
        (λ _. start_inner-Touches)

  init-Touches : Touches m cfg begun (init m cfg)
  unfolding init
  init-Touches =
      bind-Keeps P (stamp_guard m cfg.cache_dir cfg.project cfg.root) _
        (stamp_guard-Touches m cfg begun)
        (λ _.
          bind-Keeps P (is_live m (runtime_of cfg) cfg.socket) _ is_live-Touches
            (λ live. record { keeps = λ h. (init_from-Touches live (freshness m cfg h)).keeps h }))

  start_from-Touches : (b : Bool) → Touches m cfg begun (start_from m cfg b)
  start_from-Touches true = warn_on_skew-Touches m cfg begun
  start_from-Touches false =
      bind-Keeps P (start_inner m cfg) _ start_inner-Touches (λ _. warn_on_skew-Touches m cfg begun)

  start-Touches : Touches m cfg begun (start m cfg)
  unfolding start
  start-Touches =
      bind-Keeps P (stamp_guard m cfg.cache_dir cfg.project cfg.root) _
        (stamp_guard-Touches m cfg begun)
        (λ _.
          bind-Keeps P (is_live m (runtime_of cfg) cfg.socket) _ is_live-Touches start_from-Touches)

  restart-Touches : Touches m cfg begun (restart m cfg)
  unfolding restart
  restart-Touches =
      bind-Keeps P (ignore (stop m (runtime_of cfg))) _ stopping-Touches (λ _. init-Touches)

-- Whatever comes of `init`, `start` and `restart`, they make no call but their own: nothing but the
-- project's container, socket, profile, cache and directories is touched, and every container that they
-- launch is detached, has the project's name and the options of `build_runtime_args`, and is given a
-- command line that bash reads as the dump sourced and the configured server executed with its arguments.
pub flows_touch_own :
    (m : Machine) (cfg : Config) (h : List Call)
    → Touched m cfg h (init m cfg h).1
      × (Touched m cfg h (start m cfg h).1 × Touched m cfg h (restart m cfg h).1)
flows_touch_own m cfg h = (
  (init-Touches m cfg h).keeps h Behind.nothing,
  (
    (start-Touches m cfg h).keeps h Behind.nothing,
    (restart-Touches m cfg h).keeps h Behind.nothing,
  ),
)

-- ===== src/Ctl/Flows/Evidence.antt =====
-- What the flows of src/ctl/mod.rs have seen when they succeed.
use nix_capsule.Ctl.Digest.{Freshness}
use nix_capsule.Ctl.Arguments.{parent}
use nix_capsule.Ctl.Errors.{CtlError}
use nix_capsule.Ctl.Layout.{env_file}
use nix_capsule.Ctl.Machine.{Call, Machine, Program, ◌>>=◌, ◌>>◌, ignore, wrapped}
use nix_capsule.Ctl.Machine.Logic.{Ensures, continue_then, bind-Ensures}
use nix_capsule.Ctl.Flows.{
  runtime_of, Wait, stamp_guard, made_dir, freshness, ensure_cache, launch, if_stopped, polled,
  wait_live, waited, await_until, await_live, after_race, raced, name_taken, launched,
  socket_dir_made, arguments, start_dumped, start_inner, init_from, init, still_running, after_stop,
  stop_from, stop_flow,
}
use nix_capsule.Ctl.Runtime.{
  RuntimeError, running_args, seen_running, is_running, connected, is_live, inspect_state, stop,
  remove,
}
use nix_capsule.Ctl.Config.{Config}
use nix_capsule.Prelude.{
  ltb, leb, Bool-cases, Result, ok, err, ok-injective, Str, ℕ, zero, suc, ◌+◌, ◌*◌, ◌≡◌, refl, ap,
  ◌∙◌, inl, inr, Bool, true, false, List, ◌∷◌,
}

module _ (m : Machine) (cfg : Config) where
  abbrev inspected : List Call → List Call
  inspected h = Call.engine (running_args m (runtime_of cfg)) ∷ h

  -- The last thing that was done is a launch that failed because the container's name is taken.
  abbrev pub Raced : List Call → Type 0
  Raced h =
      (earlier : List Call) × (args : List Str) × (x : RuntimeError) × (h
        ≡ (launch m cfg args earlier).1)
      × ((launch m cfg args earlier).0 ≡ err x)
      × (name_taken m cfg x ≡ true)

  -- The last thing that was done is a probe: the container ran and its socket took a connection, or, right
  -- behind a launch that found the name taken, the container ran.
  pub data Up (h : List Call) : Type 0 where
    live :
        (before : List Call)
        → h ≡ Call.connect cfg.socket ∷ inspected before
        → seen_running m (runtime_of cfg) before ≡ true
        → m.connect (inspected before) cfg.socket ≡ true
        → Up h
    running :
        (before : List Call)
        → Raced before
        → h ≡ inspected before
        → seen_running m (runtime_of cfg) before ≡ true
        → Up h

  -- The last thing that was done is a probe that did not see the container run, or a stop that succeeded.
  pub data Down (h : List Call) : Type 0 where
    not_running :
        (before : List Call)
        → h ≡ inspected before
        → seen_running m (runtime_of cfg) before ≡ false
        → Down h
    stopped :
        (before : List Call) (id : Str)
        → h ≡ (stop m (runtime_of cfg) before).1
        → (stop m (runtime_of cfg) before).0 ≡ ok id
        → Down h

  connected-Up :
      {E : Type 0} (before : List Call) (b : Bool)
      → seen_running m (runtime_of cfg) before ≡ b
      → (connected m (runtime_of cfg) {E = E} cfg.socket b (inspected before)).0 ≡ ok true
      → Up (connected m (runtime_of cfg) {E = E} cfg.socket b (inspected before)).1
  connected-Up before false seen e = cc
  connected-Up before true seen e = live before refl seen (ok-injective e)

  is_live-Up :
      {E : Type 0} (h : List Call)
      → (is_live m (runtime_of cfg) {E = E} cfg.socket h).0 ≡ ok true
      → Up (is_live m (runtime_of cfg) {E = E} cfg.socket h).1
  unfolding is_live is_running
  is_live-Up {E} h e = connected-Up {E = E} h (seen_running m (runtime_of cfg) h) refl e

  polled-Up :
      (deadline : ℕ) (again : Program CtlError Wait) (before h : List Call) (b : Bool)
      → (b ≡ true → Up h)
      → ((t : List Call) → (again t).0 ≡ ok Wait.live → Up (again t).1)
      → (polled m cfg deadline again b h).0 ≡ ok Wait.live
      → Up (polled m cfg deadline again b h).1
  polled-Up deadline again before h true seen later e = seen refl
  polled-Up deadline again before h false seen later e =
      elim (Bool-cases (leb deadline (m.now h))) [
        | inl past ↦ cc (rw past at e)
        | inr early ↦ rw early (later (Call.pause ∷ h) (rw early at e))
      ]

  wait_live-Up :
      (fuel deadline : ℕ) (h : List Call)
      → (wait_live m cfg fuel deadline h).0 ≡ ok Wait.live
      → Up (wait_live m cfg fuel deadline h).1
  unfolding wait_live
  wait_live-Up zero deadline h e = cc
  wait_live-Up (suc fuel) deadline h e =
      let probe = is_live m (runtime_of cfg) {E = CtlError} cfg.socket h in
      continue_then Up (polled m cfg deadline (wait_live m cfg fuel deadline)) probe.0 probe.1
        Wait.live
        (λ b seen.
          polled-Up deadline (wait_live m cfg fuel deadline) h probe.1 b
            (λ yes. is_live-Up h (seen ∙ ap ok yes)) (λ t. wait_live-Up fuel deadline t))
        e

  waited-Up :
      (w : Wait) (h : List Call) {a : Unit {0}}
      → (w ≡ Wait.live → Up h)
      → (waited m cfg w h).0 ≡ ok a
      → Up (waited m cfg w h).1
  unfolding inspect_state
  waited-Up Wait.live h seen e = seen refl
  waited-Up Wait.stuck h seen e = cc
  waited-Up Wait.expired h seen e = cc

  await_until-Up : (deadline : ℕ) → Ensures Up (await_until m cfg deadline)
  await_until-Up deadline h a e =
      let wait = wait_live m cfg (suc (cfg.timeout * 10)) deadline h in
      continue_then Up (waited m cfg) wait.0 wait.1 a
        (λ w seen.
          waited-Up w wait.1
            (λ yes. wait_live-Up (suc (cfg.timeout * 10)) deadline h (seen ∙ ap ok yes)))
        e

  await_live-Up : Ensures Up (await_live m cfg)
  unfolding await_live
  await_live-Up h a e =
      let deadline = m.now h + cfg.timeout * 1000 in
      elim (Bool-cases (ltb m.last_instant deadline)) [
        | inl over ↦ cc (rw over at e)
        | inr within ↦ rw within (await_until-Up deadline h a (rw within at e))
      ]

  after_race-Up :
      (args : List Str) (b : Bool) (h : List Call)
      → (b ≡ true → Up h)
      → (after_race m cfg args b h).0 ≡ ok tt
      → Up (after_race m cfg args b h).1
  after_race-Up args true h seen e = seen refl
  after_race-Up args false h seen e =
      bind-Ensures Up (ignore (remove m (runtime_of cfg))) _
        (λ _. bind-Ensures Up (wrapped CtlError.runtime (launch m cfg args)) _ (λ _. await_live-Up))
        h tt e

  raced-Up :
      (args : List Str) (x : RuntimeError) (b : Bool) (h : List Call) (a : Unit {0})
      → (b ≡ true → Raced h)
      → (raced m cfg args x b h).0 ≡ ok a
      → Up (raced m cfg args x b h).1
  unfolding is_running
  raced-Up args x true h tt race e =
      after_race-Up args (seen_running m (runtime_of cfg) h) (inspected h)
        (λ seen. running h (race refl) refl seen) e
  raced-Up args x false h tt race e = cc

  launched-Up :
      (args : List Str) (earlier : List Call) (r : Result RuntimeError Str) (a : Unit {0})
      → (launch m cfg args earlier).0 ≡ r
      → (launched m cfg args r (launch m cfg args earlier).1).0 ≡ ok a
      → Up (launched m cfg args r (launch m cfg args earlier).1).1
  launched-Up args earlier (ok id) a at e = await_live-Up (launch m cfg args earlier).1 a e
  launched-Up args earlier (err x) a at e =
      raced-Up args x (name_taken m cfg x) (launch m cfg args earlier).1 a
        (λ taken. (earlier, args, x, refl, at, taken)) e

  start_dumped-Up : Ensures Up (start_dumped m cfg)
  unfolding start_dumped
  start_dumped-Up = bind-Ensures Up (socket_dir_made m cfg (parent cfg.socket)) _ (λ _.
      bind-Ensures Up (made_dir m cfg.log_dir) _ (λ _. bind-Ensures Up (arguments m cfg) _ (λ args.
        bind-Ensures Up (is_running m (runtime_of cfg) >>= if_stopped m cfg) _
          (λ _ h a. launched-Up args h (launch m cfg args h).0 a refl))))

  start_inner-Up : Ensures Up (start_inner m cfg)
  unfolding start_inner
  start_inner-Up h a e = elim (Bool-cases ((m.files h).is_file (env_file cfg.cache_dir))) [
    | inl there ↦ rw there (start_dumped-Up h a (rw there at e))
    | inr gone ↦ cc (gone, e)
  ]

  refilled-Up :
      Ensures Up (ensure_cache m cfg >> ignore (stop m (runtime_of cfg)) >> start_inner m cfg)
  refilled-Up =
      bind-Ensures Up (ensure_cache m cfg) _
        (λ _. bind-Ensures Up (ignore (stop m (runtime_of cfg))) _ (λ _. start_inner-Up))

  init_from-Up :
      (b : Bool) (f : Freshness) (h : List Call) {a : Unit {0}}
      → (b ≡ true → Up h)
      → (init_from m cfg b f h).0 ≡ ok a
      → Up (init_from m cfg b f h).1
  init_from-Up true Freshness.fresh h seen e = seen refl
  init_from-Up true Freshness.stale h {a} seen e = refilled-Up h a e
  init_from-Up true Freshness.missing h {a} seen e = refilled-Up h a e
  init_from-Up false f h {a} seen e =
      bind-Ensures Up (ensure_cache m cfg) _ (λ _. start_inner-Up) h a e

  -- When `init` succeeds, the last thing it did is a probe that saw the server live, or one that saw the
  -- container run right behind a launch that failed because its name was taken.
  pub init-Up : (h : List Call) (a : Unit {0}) → (init m cfg h).0 ≡ ok a → Up (init m cfg h).1
  unfolding init
  init-Up h a e =
      bind-Ensures Up (stamp_guard m cfg.cache_dir cfg.project cfg.root) _
        (λ _ t b f.
          let probe = is_live m (runtime_of cfg) {E = CtlError} cfg.socket t in
          continue_then Up (λ live h. init_from m cfg live (freshness m cfg h) h) probe.0 probe.1 b
            (λ live seen.
              init_from-Up live (freshness m cfg probe.1) probe.1
                (λ yes. is_live-Up t (seen ∙ ap ok yes)))
            f)
        h a e

  still_running-Down :
      (x : RuntimeError) (b : Bool) (before : List Call) {a : Unit {0}}
      → seen_running m (runtime_of cfg) before ≡ b
      → (still_running m cfg x b (inspected before)).0 ≡ ok a
      → Down (still_running m cfg x b (inspected before)).1
  still_running-Down x false before seen e = not_running before refl seen
  still_running-Down x true before seen e = cc

  stopped-Down :
      (before : List Call) (r : Result RuntimeError Str) (h : List Call) {a : Unit {0}}
      → (stop m (runtime_of cfg) before).0 ≡ r
      → h ≡ (stop m (runtime_of cfg) before).1
      → (after_stop m cfg r h).0 ≡ ok a
      → Down (after_stop m cfg r h).1
  unfolding is_running
  stopped-Down before (ok id) h at same e = stopped before id same at
  stopped-Down before (err x) h at same e =
      still_running-Down x (seen_running m (runtime_of cfg) h) h refl e

  stop_from-Down :
      (before : List Call) (b : Bool) {a : Unit {0}}
      → seen_running m (runtime_of cfg) before ≡ b
      → (stop_from m cfg b (inspected before)).0 ≡ ok a
      → Down (stop_from m cfg b (inspected before)).1
  stop_from-Down before false seen e = not_running before refl seen
  stop_from-Down before true seen e =
      stopped-Down (inspected before) (stop m (runtime_of cfg) (inspected before)).0 _ refl refl e

  -- When `stop` succeeds, the last thing it did is a probe that did not see the container run, or a stop
  -- that the container runtime reported as done.
  pub stop_flow-Down :
      (h : List Call) (a : Unit {0}) → (stop_flow m cfg h).0 ≡ ok a → Down (stop_flow m cfg h).1
  unfolding stop_flow is_running
  stop_flow-Down h a e = stop_from-Down h (seen_running m (runtime_of cfg) h) refl e

-- ===== src/Ctl/Flows/Waiting.antt =====
-- The wait for the server in src/ctl/mod.rs ends.
use nix_capsule.Ctl.Machine.{Call, Machine, Program, continue_with}
use nix_capsule.Ctl.Machine.Logic.{Avoids}
use nix_capsule.Ctl.Flows.{runtime_of, Wait, polled, wait_live, waited, await_live}
use nix_capsule.Ctl.Errors.{CtlError}
use nix_capsule.Ctl.Runtime.{
  RuntimeError, running_args, seen_running, is_running, connected, is_live, inspect_state,
}
use nix_capsule.Ctl.Config.{Config}
use nix_capsule.Prelude.{
  ltb, leb, Bool-cases, not_leb-lt, Result, ok, err, ok-injective, Str, ℕ, zero, suc, ◌+◌, ◌-◌, ◌*◌,
  ◌≤◌, ◌<◌, ◌≡◌, refl, ◌≢◌, ◌⊎◌, inl, inr, Bool, true, false, List, ◌∷◌, arith,
}

-- What is documented of the clock and of the sleep: no call turns the monotonic clock back, and a sleep
-- takes at least its 100 milliseconds.
pub record Paces (m : Machine) : Type 0 where
  pub forward : (c : Call) (h : List Call) → m.now h ≤ m.now (c ∷ h)
  pub sleeps : (h : List Call) → m.now h + 100 ≤ m.now (Call.pause ∷ h)

module _ (m : Machine) (cfg : Config) (clock : Paces m) where
  -- The wait has an end that is not the model's own.
  Ended : Result CtlError Wait → Type 0
  Ended r = (r ≡ ok Wait.live) ⊎ (r ≡ ok Wait.expired)

  polled-Ended :
      (fuel deadline : ℕ) (b : Bool) (h : List Call)
      → deadline ≤ m.now h + fuel * 100
      → ((t : List Call)
          → deadline ≤ m.now t + (fuel - 1) * 100
          → 0 < fuel
          → Ended (wait_live m cfg fuel deadline t).0)
      → Ended (polled m cfg deadline (wait_live m cfg fuel deadline) b h).0
  unfolding Ended
  polled-Ended fuel deadline true h near later = inl refl
  polled-Ended fuel deadline false h near later = elim (Bool-cases (leb deadline (m.now h))) [
    | inl past ↦ rw past (inr refl)
    | inr early ↦
        let room = not_leb-lt deadline (m.now h) early in
        rw early (
          later (Call.pause ∷ h) (omega (arith, clock.sleeps h, room, near))
            (omega (arith, room, near)))
  ]

  connected_later :
      (b : Bool) (socket : Str) (h : List Call)
      → m.now h ≤ m.now (connected m (runtime_of cfg) {E = CtlError} socket b h).1
  connected_later false socket h = omega arith
  connected_later true socket h = clock.forward (Call.connect socket) h

  is_live_later :
      (socket : Str) (h : List Call)
      → m.now h ≤ m.now (is_live m (runtime_of cfg) {E = CtlError} socket h).1
  unfolding is_live is_running
  is_live_later socket h = omega (
    arith,
    clock.forward (Call.engine (running_args m (runtime_of cfg))) h,
    connected_later (seen_running m (runtime_of cfg) h) socket
        (Call.engine (running_args m (runtime_of cfg)) ∷ h),
  )

  -- A probe never fails.
  connected_cases :
      (b : Bool) (socket : Str) (h : List Call)
      → (c : Bool) × ((connected m (runtime_of cfg) {E = CtlError} socket b h).0 ≡ ok c)
  connected_cases false socket h = (false, refl)
  connected_cases true socket h = (m.connect h socket, refl)

  pub is_live_cases :
      (socket : Str) (h : List Call)
      → (c : Bool) × ((is_live m (runtime_of cfg) {E = CtlError} socket h).0 ≡ ok c)
  unfolding is_live is_running
  is_live_cases socket h =
      connected_cases (seen_running m (runtime_of cfg) h) socket
        (Call.engine (running_args m (runtime_of cfg)) ∷ h)

  continued-Ended :
      (f : Bool → Program CtlError Wait) (r : Result CtlError Bool) (h : List Call) (b : Bool)
      → r ≡ ok b
      → Ended (f b h).0
      → Ended (continue_with f (r, h)).0
  unfolding Ended
  continued-Ended f (ok c) h b e k = let same : c ≡ b = ok-injective e in rw same k
  continued-Ended f (err x) h b e k = cc

  -- Fuel for the pauses that the deadline lets in, and one more, is enough.
  wait_live-Ended :
      (fuel deadline : ℕ) (h : List Call)
      → deadline ≤ m.now h + (fuel - 1) * 100
      → 0 < fuel
      → Ended (wait_live m cfg fuel deadline h).0
  unfolding wait_live
  wait_live-Ended zero deadline h near more = absurd (omega (arith, more))
  wait_live-Ended (suc fuel) deadline h near more =
      let (b, probed) = is_live_cases cfg.socket h in
      let probe = is_live m (runtime_of cfg) {E = CtlError} cfg.socket h in
      continued-Ended (polled m cfg deadline (wait_live m cfg fuel deadline)) probe.0 probe.1 b
        probed
        (polled-Ended fuel deadline b probe.1 (omega (arith, near, is_live_later cfg.socket h))
          (wait_live-Ended fuel deadline))

  waited-Avoids :
      (r : Result CtlError Wait) (h : List Call)
      → Ended r
      → (continue_with (waited m cfg) (r, h)).0 ≢ err CtlError.stuck
  unfolding Ended inspect_state
  waited-Avoids r h (inl done) = rw done (λ e. cc)
  waited-Avoids r h (inr past) = rw past (λ e. cc)

  pub await_live-Avoids : Avoids CtlError.stuck (await_live m cfg)
  unfolding await_live
  await_live-Avoids = record {
    never = λ h.
        let deadline = m.now h + cfg.timeout * 1000 in
        let wait = wait_live m cfg (suc (cfg.timeout * 10)) deadline h in
        elim (Bool-cases (ltb m.last_instant deadline)) [
          | inl over ↦ rw over (λ e. cc)
          | inr within ↦ rw within (
              waited-Avoids wait.0 wait.1
                (wait_live-Ended (suc (cfg.timeout * 10)) deadline h (omega arith) (omega arith)))
        ];
  }

  -- How a wait for the server ends.
  pub data WaitEnd (h : List Call) : Result CtlError (Unit {0}) → Type 0 where
    live : WaitEnd h (ok tt)
    not_live :
        (state : Str)
        → WaitEnd h (err (CtlError.runtime (RuntimeError.not_live cfg.container cfg.timeout state)))
    no_instant : m.last_instant < m.now h + cfg.timeout * 1000 → WaitEnd h (err CtlError.panicked)

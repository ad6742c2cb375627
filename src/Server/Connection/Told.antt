-- ===== src/Server/Connection/Told.antt =====
-- What the messages of a whole connection of src/server.rs tell of its child.
use mathlib.Core.Path.{subst}
use nix_capsule.Server.Connection.Produced.{
  outs, errs_of, produced_out, produced_err, exitless, outs-append, errs_of-append, exit-last,
}
use nix_capsule.Server.Rejection.{Rejection, rejection_text}
use nix_capsule.Prelude.{
  Result, ok, err, Str, ℕ, ◌≡◌, refl, sym, ap, ◌∙◌, inl, inr, Bool, true, false, Option, none, some,
  List, [], ◌∷◌, ◌++◌, append-nil,
}
use nix_capsule.Prelude.Io.{IoError}
use nix_capsule.Protocol.Message.{Exit, Message, Json}
use nix_capsule.Server.Connection.State.{
  Host, Conn, ExitStatus, Schedule, exit_of, send, send_error, signal_group, term_group,
}
use nix_capsule.Server.Connection.Loop.{Bridge, bridge}
use nix_capsule.Server.Connection.Handler.{
  exit_log, waited, on_status, finishing, finish, abandon, Handling, settle, handle_conn,
}
use nix_capsule.Server.Connection.Ending.{send_cases}
use nix_capsule.Server.Connection.Relayed.{send-Exitless, Relayed, bridge-Relayed}
use nix_capsule.Server.Connection.Reached.{Reached, handle_conn-Reached}

snoc-injective :
    {A : Type 0} (xs ys : List A) (x y : A) → xs ++ x ∷ [] ≡ ys ++ y ∷ [] → (xs ≡ ys) × (x ≡ y)
snoc-injective [] [] x y e = (refl, cc)
snoc-injective [] (b ∷ []) x y e = cc
snoc-injective [] (b ∷ c ∷ ys) x y e = cc
snoc-injective (a ∷ []) [] x y e = cc
snoc-injective (a ∷ b ∷ xs) [] x y e = cc
snoc-injective (a ∷ xs) (b ∷ ys) x y e =
    let tail : xs ++ x ∷ [] ≡ ys ++ y ∷ [] = cc in
    let (same, last) = snoc-injective xs ys x y tail in
    let first : a ≡ b = cc in (rw (same, first) refl, last)

done-injective : {c t : Conn} → Handling.done c ≡ Handling.done t → c ≡ t
done-injective e = cc

-- The messages before an `Exit` hold what the child wrote, and the `Exit` is its status.
pub record Told (sched : Schedule) (ms : List Message) (x : Exit) : Type 0 where
  pub out : outs ms ≡ produced_out sched.bridge
  pub errs : errs_of ms ≡ produced_err sched.bridge
  pub status : (s : ExitStatus) × (sched.wait ≡ some (ok s)) × (x ≡ exit_of s)

module _ (j : Json) (host : Host) (sched : Schedule) (ms : List Message) (x : Exit) where
  -- Of a connection that ends with an `Exit` behind the messages `ms`.
  abbrev Tells : Conn → Type 0
  Tells c = c.sent ≡ ms ++ Message.exit x ∷ [] → Told sched ms x

  Exitless-Tells : (c : Conn) → exitless c.sent ≡ true → Tells c
  Exitless-Tells c h e = cc (h, ap exitless e, exit-last ms x)

  module _ (pgid : ℕ) (command : Str) where
    on_status-Tells :
        (c : Conn) (r : Result IoError ExitStatus)
        → sched.wait ≡ some r
        → exitless c.sent ≡ true
        → outs c.sent ≡ produced_out sched.bridge
        → errs_of c.sent ≡ produced_err sched.bridge
        → Tells (on_status j host pgid command c r)
    unfolding on_status send_error
    on_status-Tells c (err e) wait h out errs sent =
        Exitless-Tells (send_error j host (Rejection.wait command e) c)
          (send-Exitless j host pgid c
            (Message.error (record { message = rejection_text (Rejection.wait command e) })) refl h)
          sent
    on_status-Tells c (ok s) wait h out errs sent =
        let sent_exit : (send j host (exit_log (exit_of s) c) (Message.exit (exit_of s))).0.sent
            ≡ ms ++ Message.exit x ∷ [] =
          sent in
        elim (send_cases j host (exit_log (exit_of s) c) (Message.exit (exit_of s))) [
          | inl e ↦
              let (same, last) =
                snoc-injective c.sent ms (Message.exit (exit_of s)) (Message.exit x)
                  (rw e at sent_exit) in
              let told : x ≡ exit_of s = cc in
              record { out = rw (← same) out; errs = rw (← same) errs; status = (s, wait, told) }
          | inr e ↦ Exitless-Tells (exit_log (exit_of s) c) h (rw e at sent_exit)
        ]

    -- `ServerStopping` carries no output.
    stopping_told :
        (c : Conn)
        → exitless c.sent ≡ true
        → let t = (send j host c Message.server_stopping).0 in
          (exitless t.sent ≡ true) × (outs t.sent ≡ outs c.sent) × (errs_of t.sent ≡ errs_of c.sent)
    stopping_told c h =
        let kept = send-Exitless j host pgid c Message.server_stopping refl h in
        elim (send_cases j host c Message.server_stopping) [
          | inl e ↦ rw e (
            rw e at kept,
            outs-append c.sent (Message.server_stopping ∷ []) ∙ append-nil (outs c.sent),
            errs_of-append c.sent (Message.server_stopping ∷ []) ∙ append-nil (errs_of c.sent),
          )
          | inr e ↦ rw e (h, refl, refl)
        ]

    finish-Tells :
        (c : Conn) (stop : Bool) (r : Result IoError ExitStatus)
        → sched.wait ≡ some r
        → exitless c.sent ≡ true
        → outs c.sent ≡ produced_out sched.bridge
        → errs_of c.sent ≡ produced_err sched.bridge
        → Tells (finish j host pgid command c stop r)
    unfolding finish finishing signal_group
    finish-Tells c false r wait h out errs = on_status-Tells (waited c) r wait h out errs
    finish-Tells c true r wait h out errs =
        let (h', out', errs') = stopping_told c h in
        on_status-Tells (waited (term_group j host pgid (send j host c Message.server_stopping).0))
          r wait h' (out' ∙ out) (errs' ∙ errs)

    abandon-Tells : (c : Conn) → exitless c.sent ≡ true → Tells (abandon j host pgid c)
    unfolding abandon signal_group
    abandon-Tells c h = Exitless-Tells c h

    settle-Tells :
        (q : Bridge) (wait : Option (Result IoError ExitStatus))
        → sched.wait ≡ wait
        → Relayed j host pgid sched.bridge [] q
        → (c : Conn) → settle j host pgid command sched.stop_first wait q ≡ Handling.done c
        → Tells c
    settle-Tells (Bridge.going t) wait at h c e = cc
    settle-Tells (Bridge.returned t false) (some r) at h c e =
        rw (← done-injective e) (abandon-Tells t h)
    settle-Tells (Bridge.returned t false) none at h c e = cc
    settle-Tells (Bridge.returned t true) (some r) at (h, out, errs) c e =
        rw (← done-injective e) (finish-Tells t sched.stop_first r at h out errs)
    settle-Tells (Bridge.returned t true) none at h c e = cc

  Reached-Tells :
      (q : Handling) (pid : ℕ) (c : Conn)
      → Reached j host sched q
      → q ≡ Handling.done c
      → c.spawned ≡ some pid
      → Tells c
  Reached-Tells q pid c (Reached.unspawned t e childless) done spawned =
      let same : t ≡ c = done-injective (sym e ∙ done) in
      cc (childless.spawned, ap (λ (c : Conn). c.spawned) same, spawned)
  Reached-Tells q pid c (Reached.bridged pgid command t e started) done spawned =
      let relayed = bridge-Relayed j host pgid sched.bridge t (rw started.sent refl) in
      settle-Tells pgid command (bridge j host pgid sched.bridge t) sched.wait refl
        (subst
          (λ before. Relayed j host pgid sched.bridge before (bridge j host pgid sched.bridge t))
          started.sent relayed)
        c (sym e ∙ done)

-- When the handler has returned, a child was started, and the last message sent is an `Exit`, then the
-- `Stdout` and `Stderr` messages before it hold exactly what the child wrote to the two pipes until they
-- were drained, in order, and the `Exit` is the status that the child was waited for with.
pub handle_conn-Told :
    (j : Json) (host : Host) (version : Str) (sched : Schedule) (ms : List Message) (x : Exit)
    (pid : ℕ) (c : Conn)
    → handle_conn j host version sched ≡ Handling.done c
    → c.spawned ≡ some pid
    → c.sent ≡ ms ++ Message.exit x ∷ []
    → Told sched ms x
handle_conn-Told j host version sched ms x pid c done spawned =
    Reached-Tells j host sched ms x (handle_conn j host version sched) pid c
      (handle_conn-Reached j host version sched) done spawned

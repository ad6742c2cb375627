-- ===== src/Server/Serve/Awaited.antt =====
-- Which connections the shutdown of src/server.rs waits for.
use nix_capsule.Server.Serve.{
  Site, Arrival, Act, accept_loop, handles, drained, shut_down, served, bound, checked, opened, run,
}
use nix_capsule.Server.Startup.{StartupError, probe_socket}
use nix_capsule.Prelude.Io.{IoError}
use nix_capsule.Prelude.{
  leb, lt→ltb, Bool-cases, &&-left, &&-right, all, Result, ok, err, Str, ℕ, ◌*◌, ◌<◌, ◌≡◌, refl,
  sym, ap, ◌∙◌, inl, inr, true, Option, none, some, List, [], ◌∷◌, ◌++◌, append-nil, append_assoc,
}

abbrev pub spawned_by : Act → List ℕ
spawned_by (Act.spawned id) = id ∷ []
spawned_by _ = []

abbrev pub awaited_by : Act → List ℕ
awaited_by (Act.awaited id) = id ∷ []
awaited_by _ = []

abbrev pub collect : (Act → List ℕ) → List Act → List ℕ
collect f [] = []
collect f (a ∷ acts) = f a ++ collect f acts

collect-append :
    (f : Act → List ℕ) (xs ys : List Act) → collect f (xs ++ ys) ≡ collect f xs ++ collect f ys
collect-append f [] ys = refl
collect-append f (x ∷ xs) ys =
    ap (λ t. f x ++ t) (collect-append f xs ys)
    ∙ sym (append_assoc (f x) (collect f xs) (collect f ys))

spawned-accept_loop :
    (arrivals : List Arrival) → collect spawned_by (accept_loop arrivals) ≡ handles arrivals
unfolding accept_loop handles
spawned-accept_loop [] = refl
spawned-accept_loop (Arrival.accepted id ∷ arrivals) =
    ap (λ t. id ∷ t) (spawned-accept_loop arrivals)
spawned-accept_loop (Arrival.failed e ∷ arrivals) = refl

awaited-accept_loop : (arrivals : List Arrival) → collect awaited_by (accept_loop arrivals) ≡ []
unfolding accept_loop
awaited-accept_loop [] = refl
awaited-accept_loop (Arrival.accepted id ∷ arrivals) = awaited-accept_loop arrivals
awaited-accept_loop (Arrival.failed e ∷ arrivals) = refl

module _ (site : Site) where
  awaited-drained :
      (within : ℕ) (ids : List ℕ)
      → all (λ id. leb (site.ends id) within) ids ≡ true
      → collect awaited_by (drained site within ids) ≡ ids
  unfolding drained
  awaited-drained within [] h = refl
  awaited-drained within (id ∷ ids) h =
      rw (&&-left (leb (site.ends id) within) _ h)
        (ap (λ t. id ∷ t) (awaited-drained within ids (&&-right (leb (site.ends id) within) _ h)))

  spawned-drained : (within : ℕ) (ids : List ℕ) → collect spawned_by (drained site within ids) ≡ []
  unfolding drained
  spawned-drained within [] = refl
  spawned-drained within (id ∷ ids) = elim (Bool-cases (leb (site.ends id) within)) [
    | inl soon ↦ rw soon (spawned-drained within ids)
    | inr late ↦ rw late refl
  ]

  module _ (drain : ℕ) (some_time : 0 < drain) (arrivals : List Arrival) (received : Str) where
    -- All that was spawned was awaited, in the same order.
    abbrev AllAwaited : Result StartupError (Unit {0}) × List Act → Type 0
    AllAwaited r = r.0 ≡ ok tt → collect awaited_by r.1 ≡ collect spawned_by r.1

    module _ (soon : all (λ id. leb (site.ends id) (drain * 1000)) (handles arrivals) ≡ true) where
      awaited-shut_down :
          (ids : List ℕ)
          → all (λ id. leb (site.ends id) (drain * 1000)) ids ≡ true
          → collect awaited_by (shut_down site drain received ids) ≡ ids
      unfolding shut_down
      awaited-shut_down ids h =
          rw
            (
              lt→ltb 0 drain some_time,
              collect-append awaited_by (drained site (drain * 1000) ids) _,
              awaited-drained (drain * 1000) ids h,
            )
            (append-nil ids)

      spawned-shut_down :
          (ids : List ℕ) → collect spawned_by (shut_down site drain received ids) ≡ []
      unfolding shut_down
      spawned-shut_down ids =
          rw
            (
              lt→ltb 0 drain some_time,
              collect-append spawned_by (drained site (drain * 1000) ids) _,
              spawned-drained (drain * 1000) ids,
            )
            refl

      served-AllAwaited :
          (sigterm sigint : Option IoError)
          → AllAwaited (served site drain arrivals received sigterm sigint)
      served-AllAwaited (some e) sigint h = cc
      served-AllAwaited none (some e) h = cc
      served-AllAwaited none none h =
          let rest = shut_down site drain received (handles arrivals) in
          rw
            (
              collect-append awaited_by (accept_loop arrivals) rest,
              collect-append spawned_by (accept_loop arrivals) rest,
              awaited-accept_loop arrivals,
              spawned-accept_loop arrivals,
              awaited-shut_down (handles arrivals) soon,
              spawned-shut_down (handles arrivals),
            )
            (sym (append-nil (handles arrivals)))

      bound-AllAwaited :
          (socket : Str) (o : Option IoError)
          → AllAwaited (bound site socket drain arrivals received o)
      bound-AllAwaited socket (some e) h = cc
      bound-AllAwaited socket none h = served-AllAwaited site.sigterm site.sigint h

      checked-AllAwaited :
          (socket : Str) (r : Result StartupError (Unit {0}))
          → AllAwaited (checked site socket drain arrivals received r)
      checked-AllAwaited socket (err e) h = cc
      checked-AllAwaited socket (ok free) h = bound-AllAwaited socket site.bind h

      opened-AllAwaited :
          (dir : Str) (o p : Option IoError) (r : Result StartupError (Unit {0}) × List Act)
          → AllAwaited r
          → AllAwaited (opened site dir o p r)
      opened-AllAwaited dir (some e) p r held h = cc
      opened-AllAwaited dir none (some e) r held h = cc
      opened-AllAwaited dir none none r held h = held h

-- A server that was started and stopped has awaited every connection that it accepted, in their order, when
-- the drain has a second at least and the connections end within it.
pub run_awaits_all :
    (site : Site) (socket log_dir : Str) (drain : ℕ) (arrivals : List Arrival) (received : Str)
    → 0 < drain
    → all (λ id. leb (site.ends id) (drain * 1000)) (handles arrivals) ≡ true
    → (run site socket log_dir drain arrivals received).0 ≡ ok tt
    → let acts = (run site socket log_dir drain arrivals received).1 in
      collect awaited_by acts ≡ collect spawned_by acts
unfolding run
run_awaits_all site socket log_dir drain arrivals received some_time soon =
    opened-AllAwaited site drain some_time arrivals received soon log_dir site.create_dir
      site.open_log _
      (checked-AllAwaited site drain some_time arrivals received soon socket
        (probe_socket socket site.socket_there site.connects site.removal).0)

-- ===== src/Client/Status.antt =====
-- `Outcome` and `exit_outcome` of src/client/mod.rs: the child's status as the client's exit code.
use mathlib.Core.Option
use nix_capsule.Prelude.{
  ◌==◌, if◌then◌else◌, Result, ok, err, ok-injective, Str, codes, ℕ, ◌+◌, ◌≡◌, refl, ap, ◌≢◌, ◌↔◌,
  ◌⊎◌, inl, inr, Option, none, some, ◌++◌, arith,
}
use nix_capsule.Protocol.Message.{Exit}
use nix_capsule.Client.Errors.{ClientError}

pub record Outcome : Type 0 where
  pub code : ℕ
  pub notice : Option Str

abbrev pub just : ℕ → Outcome
just n = record { code = n; notice = none }

abbrev pub with_notice : ℕ → Str → Outcome
with_notice n s = record { code = n; notice = some s }

-- 128 + SIGTERM.
abbrev pub shutdown_exit : ℕ
shutdown_exit = 128 + 15

by_code : ℕ → Str → Outcome
by_code code command =
    if code == 127
    then with_notice 127 (command ++ codes ": command not found")
    else if code == 126
    then with_notice 126 (command ++ codes ": permission denied")
    else just code

by_status : Option ℕ → Option ℕ → Str → Result ClientError Outcome
unfolding by_code
by_status (some code) signal command = ok (by_code code command)
by_status none (some signal) command = ok (just (signal + 128))
by_status none none command = err ClientError.missing_exit_status

-- The exit code of an outcome, if there is one.
abbrev pub exit_code : Result ClientError Outcome → Option ℕ
exit_code (ok o) = some o.code
exit_code (err e) = none

abbrev pub first_of : Option ℕ → Option ℕ → Option ℕ
first_of (some n) other = some n
first_of none other = other

code_notice :
    {P : Type 0} (c : ℕ)
    → P ↔ ((c ≡ 126) ⊎ (c ≡ 127))
    → P ↔ ((◌≡◌ {A = Option ℕ} (some c) (some 126)) ⊎ (◌≡◌ {A = Option ℕ} (some c) (some 127)))
code_notice c h = (
  λ p. elim (h.0 p) [ inl k ↦ inl (ap some k) | inr k ↦ inr (ap some k) ],
  λ w. h.1 (elim w [ inl k ↦ inl cc | inr k ↦ inr cc ]),
)

by_code-code : (c : ℕ) (command : Str) → (by_code c command).code ≡ c
unfolding by_code
by_code-code c command = ground arith

by_code-notice :
    (c : ℕ) (command : Str) → ((by_code c command).notice ≢ none) ↔ ((c ≡ 126) ⊎ (c ≡ 127))
unfolding by_code
by_code-notice c command = ground arith

unfoldable pub exit_outcome : Exit → Str → Result ClientError Outcome
unfolding by_status
exit_outcome exit command = by_status exit.code exit.signal command

by_status-code :
    (code signal : Option ℕ) (command : Str)
    → exit_code (by_status code signal command) ≡ first_of code (Option.map (λ n. 128 + n) signal)
unfolding by_status
by_status-code (some c) signal command = rw (by_code-code c command)
by_status-code none (some n) command = ap some (omega arith)
by_status-code none none command = refl

-- The exit code is the child's code if it has one, else 128 plus its signal; a frame with neither gives
-- no exit code.
pub exit_outcome-code :
    (e : Exit) (command : Str)
    → exit_code (exit_outcome e command) ≡ first_of e.code (Option.map (λ n. 128 + n) e.signal)
unfolding exit_outcome
exit_outcome-code e command = by_status-code e.code e.signal command

by_status-notice :
    (code signal : Option ℕ) (command : Str) {o : Outcome}
    → by_status code signal command ≡ ok o
    → (o.notice ≢ none) ↔ ((code ≡ some 126) ⊎ (code ≡ some 127))
unfolding by_status
by_status-notice (some c) signal command {o} h =
    rw (← ok-injective h) (code_notice c (by_code-notice c command))
by_status-notice none (some n) command {o} h =
    rw (← ok-injective h) (λ w. absurd (w refl), λ w. elim w [ inl k ↦ cc | inr k ↦ cc ])
by_status-notice none none command {o} h = cc

-- A session that ends by an `Exit` prints a notice for the codes 126 and 127 and for nothing else.
pub exit_outcome-notice :
    (e : Exit) (command : Str) {o : Outcome}
    → exit_outcome e command ≡ ok o
    → (o.notice ≢ none) ↔ ((e.code ≡ some 126) ⊎ (e.code ≡ some 127))
unfolding exit_outcome
exit_outcome-notice e command {o} h = by_status-notice e.code e.signal command {o = o} h

-- ===== src/Ctl/Nix.antt =====
-- The nix adapter, src/ctl/nix.rs, over a machine.
use nix_capsule.Ctl.Machine.{Call, Machine, Program}
use nix_capsule.Prelude.Io.{IoError}
use nix_capsule.Prelude.{Result, ok, err, Bytes, Str, codes, Bool, true, false, List, [], ◌∷◌}

pub data PrintDevEnvError : Type 0 where
  spawn : IoError → PrintDevEnvError
  failed : Str → PrintDevEnvError

abbrev pub env_args : Str → Str → List Str
env_args profile devshell = codes "print-dev-env" ∷ codes "--profile" ∷ profile ∷ devshell ∷ []

abbrev dumped : Str → Result IoError (Bool × Bytes) → Result PrintDevEnvError Bytes
dumped devshell (err e) = err (PrintDevEnvError.spawn e)
dumped devshell (ok (false, out)) = err (PrintDevEnvError.failed devshell)
dumped devshell (ok (true, out)) = ok out

abbrev pub wipe_args : Str → List Str
wipe_args profile = codes "profile" ∷ codes "wipe-history" ∷ codes "--profile" ∷ profile ∷ []

module _ (m : Machine) where
  -- The captured stdout is the environment dump.
  unfoldable pub print_dev_env : Str → Str → Program PrintDevEnvError Bytes
  print_dev_env profile devshell h = (
    dumped devshell (m.nix h (env_args profile devshell)),
    Call.nix (env_args profile devshell) ∷ h,
  )

  -- Whatever comes of it is left unread.
  unfoldable pub wipe_history : {E : Type 0} → Str → Program E (Unit {0})
  wipe_history profile h = (ok tt, Call.nix (wipe_args profile) ∷ h)

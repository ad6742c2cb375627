-- ===== src/Ctl/Arguments/Failing.antt =====
-- The errors of `build_runtime_args` in src/ctl/mod.rs.
use nix_capsule.Prelude.{
  Result, ok, err, ◌>>=◌, map_err, Str, ◌≢◌, Option, none, some, List, [], ◌∷◌,
}
use nix_capsule.Ctl.Arguments.{parent, expand_all, with_socket_dir, build_runtime_args}
use nix_capsule.Ctl.Config.{Config}
use nix_capsule.Ctl.Errors.{CtlError}
use nix_capsule.Ctl.Expand.{expand_with}
use nix_capsule.Ctl.Machine.{Call, Machine}
use nix_capsule.Ctl.Machine.Logic.{map_err-ne}

module _ {E A B : Type 0} (bad : E) where
  then-ne :
      (r : Result E A) (f : A → Result E B)
      → r ≢ err bad
      → ((a : A) → f a ≢ err bad)
      → (r >>= f) ≢ err bad
  then-ne (ok a) f first each e = each a e
  then-ne (err x) f first each e = first cc

module _ (m : Machine) (cfg : Config) (h : List Call) where
  expand_all-ne : (opts : List Str) → expand_all m cfg h opts ≢ err CtlError.stuck
  unfolding expand_all
  expand_all-ne [] e = cc
  expand_all-ne (opt ∷ opts) e =
      then-ne CtlError.stuck (map_err CtlError.unset_var (expand_with m.lookup opt)) _
        (map_err-ne CtlError.stuck CtlError.unset_var (λ x e. cc) (expand_with m.lookup opt))
        (λ first.
          then-ne CtlError.stuck (expand_all m cfg h opts) _ (expand_all-ne opts) (λ rest e. cc))
        e

  with_socket_dir-ne : (dir : Option Str) → with_socket_dir m cfg h dir ≢ err CtlError.stuck
  with_socket_dir-ne none e = cc
  with_socket_dir-ne (some dir) e =
      then-ne CtlError.stuck (expand_all m cfg h cfg.run_opts) _ (expand_all-ne cfg.run_opts)
        (λ opts e. cc) e

  pub build_runtime_args-ne : build_runtime_args m cfg h ≢ err CtlError.stuck
  unfolding build_runtime_args
  build_runtime_args-ne = with_socket_dir-ne (parent cfg.socket)

-- ===== src/Ctl/Flows/Own.antt =====
-- What the commands of src/ctl/mod.rs that start the container touch: the calls they may make, and the
-- programs that make one or two of them.
use nix_capsule.Protocol.Message.{from_frame}
use nix_capsule.Prelude.{
  ok, Bytes, Str, codes, ◌≡◌, Bool, true, false, Option, none, some, List, [], ◌∷◌, ◌++◌,
}
use nix_capsule.Prelude.Chars.{as_bytes}
use nix_capsule.Prelude.Io.{IoError}
use nix_capsule.Protocol.Codec.{Frame}
use nix_capsule.Ctl.Machine.{Call, Machine, Program, wrapped, attempt}
use nix_capsule.Ctl.Machine.Logic.{Keeps, bind-Keeps, Behind, return-Keeps}
use nix_capsule.Ctl.Flows.{
  runtime_of, stamp_calls, stamp_guard, made_dir, made_private, dir_0700, ensure_dir_0700, written,
  freshness, digested, refill_cache, unless_fresh, ensure_cache, server_args, socket_dir_made,
}
use nix_capsule.Ctl.Runtime.{running_args}
use nix_capsule.Ctl.Runtime.Launch.{Place, read_tokens, launch_tokens}
use nix_capsule.Ctl.Version.{skew_lines, noticed, replied, probed, warn_on_skew}
use nix_capsule.Ctl.Nix.{print_dev_env, wipe_history}
use nix_capsule.Ctl.Layout.{env_file, hash_file, profile_file}
use nix_capsule.Ctl.Stamp.{StampFile, project_stamp_file}
use nix_capsule.Ctl.Config.{Config}
use nix_capsule.Ctl.Errors.{CtlError}
use nix_capsule.Ctl.Digest.{Freshness}
use nix_capsule.Ctl.Arguments.{parent, build_runtime_args}

module _ (m : Machine) (cfg : Config) where
  -- The calls of `init`, `start` and `restart`. They inspect, stop and remove the container and connect to
  -- the socket. They dump the devshell into the profile, wipe the profile's history, write the dump, the digest and the
  -- stamp, and make the socket's directory, which goes to 0700, the cache and the log directory. They
  -- wait, and print notices. A launch is a `run` of the container, detached and under its name, behind it the
  -- options that `build_runtime_args` gave, then `--`, the image, and bash with a command line that bash reads
  -- as the dump sourced and the server executed with its arguments.
  pub data Own : Call → Type 0 where
    inspects : Own (Call.engine (running_args m (runtime_of cfg)))
    reports :
        Own (
          Call.engine (codes "inspect" ∷ codes "-f" ∷ codes "{{json .State}}" ∷ cfg.container ∷ []))
    looks_up : Own (Call.engine (codes "inspect" ∷ cfg.container ∷ []))
    stops : Own (Call.engine (codes "stop" ∷ cfg.container ∷ []))
    removes : Own (Call.engine (codes "rm" ∷ cfg.container ∷ []))
    launches :
        (before : List Call) (options : List Str) (line : Str)
        → build_runtime_args m cfg before ≡ ok options
        → read_tokens line Place.gap
          ≡ some (launch_tokens (env_file cfg.cache_dir) cfg.server (server_args m cfg))
        → Own (
            Call.engine (
              codes "run"
              ∷ codes "-d"
              ∷ codes "--name"
              ∷ cfg.container
              ∷ (options ++ codes "--" ∷ cfg.image ∷ cfg.bash ∷ codes "-c" ∷ line ∷ [])))
    connects : Own (Call.connect cfg.socket)
    asks_version : Own (Call.version_probe cfg.socket)
    dumps : Own (
        Call.nix (
          codes "print-dev-env"
          ∷ codes "--profile"
          ∷ profile_file cfg.cache_dir
          ∷ cfg.devshell
          ∷ []))
    wipes : Own (
        Call.nix (
          codes "profile"
          ∷ codes "wipe-history"
          ∷ codes "--profile"
          ∷ profile_file cfg.cache_dir
          ∷ []))
    makes_cache : Own (Call.create_dir cfg.cache_dir)
    makes_log : Own (Call.create_dir cfg.log_dir)
    makes_parent : (dir : Str) → parent cfg.socket ≡ some dir → Own (Call.create_dir dir)
    hides_parent : (dir : Str) → parent cfg.socket ≡ some dir → Own (Call.set_private dir)
    env : (bytes : Bytes) → Own (Call.write (env_file cfg.cache_dir) bytes)
    hash : (bytes : Bytes) → Own (Call.write (hash_file cfg.cache_dir) bytes)
    stamp : Own (Call.write (project_stamp_file cfg.cache_dir) (as_bytes cfg.root))
    pauses : Own Call.pause
    notices : (line : Str) → Own (Call.notice line)

module _ (m : Machine) (cfg : Config) (start : List Call) where
  abbrev pub Touched : List Call → Type 0
  Touched h = Behind (Own m cfg) start h

  abbrev pub Touches : {E A : Type 0} → Program E A → Type 0
  Touches p = Keeps Touched p

  attempted :
      {E : Type 0} (f : IoError → E) (c : Call) (r : Option IoError) (h : List Call)
      → Own m cfg c
      → Touched h
      → Touched (attempt f c r h).1
  attempted f c none h own held = Behind.more own held
  attempted f c (some e) h own held = Behind.more own held

  pub made_dir-Touches : (dir : Str) → Own m cfg (Call.create_dir dir) → Touches (made_dir m dir)
  made_dir-Touches dir own = record {
    keeps = λ h. attempted _ (Call.create_dir dir) (m.create_dir h dir) h own;
  }

  pub written-Touches :
      (path : Str) (bytes : Bytes)
      → Own m cfg (Call.write path bytes)
      → Touches (written m path bytes)
  written-Touches path bytes own = record {
    keeps = λ h. attempted _ (Call.write path bytes) (m.write h path bytes) h own;
  }

  made_private-Touches :
      (dir : Str) → Own m cfg (Call.set_private dir) → Touches (made_private m dir)
  made_private-Touches dir own = record {
    keeps = λ h. attempted _ (Call.set_private dir) (m.set_private h dir) h own;
  }

  dir_0700-Touches :
      (dir : Str) (b : Bool) → parent cfg.socket ≡ some dir → Touches (dir_0700 m dir b)
  dir_0700-Touches dir true at = return-Keeps (Own m cfg) start tt
  dir_0700-Touches dir false at =
      bind-Keeps Touched (made_dir m dir) _ (made_dir-Touches dir (Own.makes_parent dir at))
        (λ _. made_private-Touches dir (Own.hides_parent dir at))

  pub socket_dir_made-Touches :
      (o : Option Str) → parent cfg.socket ≡ o → Touches (socket_dir_made m cfg o)
  unfolding socket_dir_made ensure_dir_0700
  socket_dir_made-Touches none at = return-Keeps (Own m cfg) start tt
  socket_dir_made-Touches (some dir) at = record {
    keeps = λ h. (dir_0700-Touches dir (m.exists h dir) at).keeps h;
  }

  stamp_calls-Touched :
      (file : StampFile) (made : Option IoError) (h : List Call)
      → Touched h
      → Touched (stamp_calls m cfg.cache_dir (as_bytes cfg.root) file made h)
  stamp_calls-Touched StampFile.absent none h held =
      Behind.more Own.stamp (Behind.more Own.makes_cache held)
  stamp_calls-Touched StampFile.absent (some e) h held = Behind.more Own.makes_cache held
  stamp_calls-Touched (StampFile.holds text) made h held = held
  stamp_calls-Touched (StampFile.unreadable e) made h held = held

  pub stamp_guard-Touches : Touches (stamp_guard m cfg.cache_dir cfg.project cfg.root)
  unfolding stamp_guard
  stamp_guard-Touches = record {
    keeps = λ h. stamp_calls-Touched _ (m.create_dir h cfg.cache_dir) h;
  }

  noticed-Touched : (lines : List Str) (h : List Call) → Touched h → Touched (noticed lines h)
  noticed-Touched [] h held = held
  noticed-Touched (line ∷ lines) h held =
      noticed-Touched lines (Call.notice line ∷ h) (Behind.more (Own.notices line) held)

  replied-Touched :
      (o : Option Frame) (h : List Call) → Touched h → Touched (replied m cfg.socket o h)
  replied-Touched none h held = held
  replied-Touched (some f) h held =
      noticed-Touched (skew_lines cfg.socket m.version (from_frame m.json f)) h held

  probed-Touched : (b : Bool) (h : List Call) → Touched h → Touched (probed m cfg.socket b h)
  probed-Touched false h held = held
  probed-Touched true h held =
      replied-Touched (m.version_reply h cfg.socket) (Call.version_probe cfg.socket ∷ h)
        (Behind.more Own.asks_version held)

  pub warn_on_skew-Touches : {E : Type 0} → Touches (warn_on_skew m {E = E} cfg.socket)
  unfolding warn_on_skew
  warn_on_skew-Touches = record {
    keeps = λ h held.
        probed-Touched (m.connect h cfg.socket) (Call.connect cfg.socket ∷ h)
          (Behind.more Own.connects held);
  }

  pub refill_cache-Touches : Touches (refill_cache m cfg)
  unfolding refill_cache print_dev_env wipe_history
  refill_cache-Touches =
      bind-Keeps Touched (made_dir m cfg.cache_dir) _
        (made_dir-Touches cfg.cache_dir Own.makes_cache)
        (λ _.
          bind-Keeps Touched
            (wrapped CtlError.print_dev_env
              (print_dev_env m (profile_file cfg.cache_dir) cfg.devshell))
            _ (record { keeps = λ h. Behind.more Own.dumps })
            (λ output.
              bind-Keeps Touched (written m (env_file cfg.cache_dir) output) _
                (written-Touches (env_file cfg.cache_dir) output (Own.env output))
                (λ _.
                  bind-Keeps Touched (wipe_history m (profile_file cfg.cache_dir)) _
                    (record { keeps = λ h. Behind.more Own.wipes })
                    (λ _.
                      bind-Keeps Touched (digested m cfg) _ (record { keeps = λ h held. held })
                        (λ digest.
                          written-Touches (hash_file cfg.cache_dir) (as_bytes digest)
                            (Own.hash (as_bytes digest)))))))

  pub ensure_cache-Touches : Touches (ensure_cache m cfg)
  unfolding ensure_cache
  ensure_cache-Touches = record {
    keeps = λ h held. elim (freshness m cfg h) as (λ f. Touched (unless_fresh m cfg f h).1) [
      | Freshness.fresh ↦ held
      | Freshness.stale ↦ refill_cache-Touches.keeps h held
      | Freshness.missing ↦ refill_cache-Touches.keeps h held
    ];
  }

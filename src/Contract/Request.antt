-- ===== src/Contract/Request.antt =====
-- A command line, from `build_request` of src/client/mod.rs to the spawn in `handle_conn` of src/server.rs.
use mathlib.Core.Option
use nix_capsule.Server.LogLevel.{LogLevel}
use nix_capsule.Client.Env.{OsString, Entry, render, Process, build_env, choose_cwd, build_request}
use nix_capsule.Client.Env.Accepted.{at_first, build_env-accepted}
use nix_capsule.Server.Connection.State.{Host, Conn, opened, First, Schedule, logged, framed}
use nix_capsule.Server.Connection.Handler.{
  parse_entries, run_child, on_request, on_first_message, on_first, handle_conn,
}
use nix_capsule.Protocol.Message.{Request, Message, Json, JsonReadsBack, into_frame, from_frame}
use nix_capsule.Protocol.Message.RoundTrip.{from_frame-into_frame}
use nix_capsule.Protocol.Codec.{Frame}
use nix_capsule.Prelude.{
  ok, ok-injective, >>=-eq-ok, Str, codes, ◌≡◌, refl, sym, ap, ◌∙◌, true, Option, none, List, ◌++◌,
  map,
}

abbrev forward_list : Process → Option Str
forward_list p = Option.map p.to_string_lossy (p.var_os (codes "NCAP_ENV_FORWARD"))

module _ (p : Process) where
  build_request-fields :
      (cwd : Option OsString) (env : List OsString) (name : OsString) (args : List OsString)
      (r : Request)
      → build_request p cwd env name args ≡ ok r
      → (dir : OsString) × (es : List Entry) × (choose_cwd p cwd ≡ ok dir)
        × (build_env p env (forward_list p) ≡ ok (map render es))
        × (parse_entries r.env ≡ ok (map at_first es))
        × (r.command ≡ p.to_string_lossy name)
        × (r.args ≡ map p.to_string_lossy args)
        × (r.cwd ≡ p.to_string_lossy dir)
  unfolding build_request
  build_request-fields cwd env name args r e =
      let (dir, chosen, t1) = >>=-eq-ok (choose_cwd p cwd) _ e in
      let (vars, built, t2) = >>=-eq-ok (build_env p env (forward_list p)) _ t1 in
      let (es, rendered, parsed) = build_env-accepted p env (forward_list p) {vars = vars} built in
      let same = sym (ok-injective t2) in
      (
        dir,
        es,
        chosen,
        built ∙ ap ok rendered,
        ap (λ (r : Request). parse_entries r.env) same ∙ parsed,
        ap (λ (r : Request). r.command) same,
        ap (λ (r : Request). r.args) same,
        ap (λ (r : Request). r.cwd) same,
      )

-- The connection behind the request, before the spawn.
abbrev requested : Request → Conn
requested r =
    logged LogLevel.debug
      (codes "exec request for `" ++ (r.command ++ (codes "` in `" ++ (r.cwd ++ codes "`")))) opened

spawned_for :
    (j : Json) (host : Host) (version : Str) (sched : Schedule) (f : Frame) (r : Request)
    (es : List (Str × Str))
    → sched.first ≡ First.frame (ok f)
    → from_frame j f ≡ ok (Message.request r)
    → host.is_dir r.cwd ≡ true
    → parse_entries r.env ≡ ok es
    → handle_conn j host version sched
      ≡ run_child j host sched r
          (requested r)
          (host.spawn (record { command = r.command; args = r.args; cwd = r.cwd; env = es }))
unfolding handle_conn on_first on_first_message on_request
spawned_for j host version sched f r es arrived read there parsed =
    rw (arrived, read, there, parsed) refl

-- A request that the client built, in a frame that its connection starts with and with a directory that the
-- server finds, makes the server spawn the client's command with its arguments and the chosen directory. Its
-- environment is the entries of flags and forwarded names that the client rendered, each split at the
-- first `=` of its text. This holds if the JSON library reads back what it wrote.
pub request_arrives :
    (p : Process) (j : Json) (host : Host)
    → JsonReadsBack j
    → (cwd : Option OsString) (env : List OsString) (name : OsString) (args : List OsString)
      (r : Request)
    → build_request p cwd env name args ≡ ok r
    → (f : Frame) (version : Str) (sched : Schedule) → into_frame j (Message.request r) ≡ ok f
    → sched.first ≡ First.frame (ok f)
    → host.is_dir r.cwd ≡ true
    → (dir : OsString) × (es : List Entry) × (c : Conn) × (choose_cwd p cwd ≡ ok dir)
      × (build_env p env (forward_list p) ≡ ok (map render es))
      × (c.spawned ≡ none)
      × (handle_conn j host version sched
          ≡ run_child j host sched r c (
              host.spawn (record {
                command = p.to_string_lossy name;
                args = map p.to_string_lossy args;
                cwd = p.to_string_lossy dir;
                env = map at_first es;
              })))
request_arrives p j host reads cwd env name args r built f version sched framed arrived there =
    let (dir, es, chosen, merged, parsed, same_command, same_args, same_cwd) =
      build_request-fields p cwd env name args r built in
    let read = from_frame-into_frame j reads (Message.request r) f framed in
    let spawns = spawned_for j host version sched f r (map at_first es) arrived read there parsed in
    (
      dir,
      es,
      requested r,
      chosen,
      merged,
      refl,
      rw (← same_command, ← same_args, ← same_cwd) spawns,
    )

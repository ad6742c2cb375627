-- ===== src/Runs/RequestRuns.antt =====
-- A command line of the client of src/client/mod.rs as the server of src/server.rs spawns it.
use nix_capsule.Client.Env.Accepted.{at_first}
use nix_capsule.Runs.Toy.{json, json-ReadsBack, process, host}
use nix_capsule.Contract.Request.{request_arrives}
use nix_capsule.Client.Env.{
  OsString, Entry, apply_entry, render, resolve_flag, forward_loop, flag_loop, forwarded_names,
  build_env, choose_cwd, build_request,
}
use nix_capsule.Server.Connection.State.{Conn, First, Schedule}
use nix_capsule.Server.Connection.Handler.{run_child, handle_conn}
use nix_capsule.Protocol.FrameType.{FrameType}
use nix_capsule.Protocol.Message.{
  Request, Message, Json, JsonReadsBack, frame_type, payload_of_message, into_frame,
}
use nix_capsule.Protocol.Codec.{Frame}
use nix_capsule.Prelude.{
  Result, ok, err, ok-injective, Bytes, Str, codes, ℕ, zero, suc, ◌≡◌, refl, false, none, some,
  List, [], ◌∷◌, map,
}

-- The texts of a list: 2 comes before each character, 1 behind each text, and 0 behind the list.
abbrev write_text : Str → Bytes → Bytes
write_text [] b = 1 ∷ b
write_text (c ∷ s) b = 2 ∷ c ∷ write_text s b

abbrev write_texts : List Str → Bytes → Bytes
write_texts [] b = 0 ∷ b
write_texts (s ∷ texts) b = write_text s (write_texts texts b)

abbrev onto_first : ℕ → List Str × Bytes → List Str × Bytes
onto_first c ([], b) = ([], b)
onto_first c (s ∷ texts, b) = ((c ∷ s) ∷ texts, b)

abbrev read_texts : Bytes → List Str × Bytes
read_texts (suc zero ∷ b) = let (texts, rest) = read_texts b in ([] ∷ texts, rest)
read_texts (suc (suc n) ∷ c ∷ b) = onto_first c (read_texts b)
read_texts (zero ∷ b) = ([], b)
read_texts b = ([], b)

read_texts-write_text :
    (s : Str) (b : Bytes) (texts : List Str) (rest : Bytes)
    → read_texts b ≡ (texts, rest)
    → read_texts (write_text s b) ≡ (s ∷ texts, rest)
read_texts-write_text [] b texts rest e = rw e refl
read_texts-write_text (c ∷ s) b texts rest e = rw (read_texts-write_text s b texts rest e) refl

read_texts-write_texts :
    (texts : List Str) (b : Bytes) → read_texts (write_texts texts b) ≡ (texts, b)
read_texts-write_texts [] b = refl
read_texts-write_texts (s ∷ texts) b =
    read_texts-write_text s (write_texts texts b) texts b (read_texts-write_texts texts b)

abbrev fields : Request → List Str
fields r = r.command ∷ r.cwd ∷ r.args

abbrev request_of : List Str → List Str → Result Str Request
request_of (command ∷ cwd ∷ args) env =
    ok (record { command = command; args = args; cwd = cwd; env = env })
request_of _ env = err []

abbrev listing_json : Json
listing_json = record json {
  request = record {
    to_vec = λ r. ok (write_texts (fields r) (write_texts r.env []));
    from_slice = λ b. request_of (read_texts b).0 (read_texts (read_texts b).1).0;
  };
}

read_request :
    (r : Request) (b : Bytes)
    → listing_json.request.to_vec r ≡ ok b
    → listing_json.request.from_slice b ≡ ok r
read_request r b e =
    rw
      (
        ← ok-injective e,
        read_texts-write_texts (fields r) (write_texts r.env []),
        read_texts-write_texts r.env [],
      )
      refl

listing_json-ReadsBack : JsonReadsBack listing_json
listing_json-ReadsBack = record {
  request = read_request;
  exit = json-ReadsBack.exit;
  error = json-ReadsBack.error;
  version = json-ReadsBack.version;
  signal = json-ReadsBack.signal;
}

-- `ncap --env A=2 ls -l`
abbrev request : Request
request = record {
  command = codes "ls";
  args = codes "-l" ∷ [];
  cwd = codes "/w";
  env = codes "A=2" ∷ [];
}

request_built :
    build_request process none (codes "A=2" ∷ []) (codes "ls") (codes "-l" ∷ []) ≡ ok request
unfolding build_request build_env forwarded_names forward_loop flag_loop resolve_flag apply_entry
request_built = refl

abbrev frame : Frame
frame = record {
  frame_type = FrameType.request;
  payload = write_texts (fields request) (write_texts request.env []);
}

request_framed : into_frame listing_json (Message.request request) ≡ ok frame
unfolding into_frame payload_of_message frame_type
request_framed = refl

abbrev schedule : Schedule
schedule = record {
  first = First.frame (ok frame);
  bridge = [];
  stop_first = false;
  wait = some (ok (record { code = some 0; signal = none }));
}

request_arrives_example :
    (dir : OsString) × (es : List Entry) × (c : Conn) × (choose_cwd process none ≡ ok dir)
    × (build_env process (codes "A=2" ∷ []) none ≡ ok (map render es))
    × (c.spawned ≡ none)
    × (handle_conn listing_json host (codes "1") schedule
        ≡ run_child listing_json host schedule request c (
            host.spawn (record {
              command = codes "ls";
              args = codes "-l" ∷ [];
              cwd = dir;
              env = map at_first es;
            })))
request_arrives_example =
    request_arrives process listing_json host listing_json-ReadsBack none (codes "A=2" ∷ [])
      (codes "ls") (codes "-l" ∷ []) request request_built frame (codes "1") schedule request_framed
      refl refl

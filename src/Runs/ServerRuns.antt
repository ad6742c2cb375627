-- ===== src/Runs/ServerRuns.antt =====
-- The server of src/server.rs at concrete inputs.
use nix_capsule.Server.Serve.{Site, Arrival, Act, handles, run}
use nix_capsule.Server.Serve.Awaited.{spawned_by, awaited_by, collect, run_awaits_all}
use nix_capsule.Server.Clock.{date_of_days, format_utc}
use nix_capsule.Server.Clock.Civil.{
  days_from_civil, month_length, date_of_days_valid, days_from_civil-date_of_days,
}
use nix_capsule.Prelude.Decimal.{to_decimal}
use nix_capsule.Prelude.{
  leb, all, Result, ok, codes, ◌*◌, ◌≤◌, ◌≡◌, refl, true, false, none, some, List, [], ◌∷◌, ◌++◌,
  arith,
}
use nix_capsule.Protocol.FrameType.{FrameType}
use nix_capsule.Server.LogLevel.{
  LogLevel, as_str, rank, Log, emit_line, Call, emit_all, kept, emit_all-kept,
}
use nix_capsule.Server.Startup.{StartupError, probe_socket}
use nix_capsule.Server.Connection.State.{First, Chunk, Event, Schedule}
use nix_capsule.Server.Connection.Handler.{handle_conn}
use nix_capsule.Server.Connection.Ending.{well_ended}
use nix_capsule.Server.Connection.Handled.{conn_of, handle_conn-WellEnded}
use nix_capsule.Server.Connection.Children.{Accounted, handle_conn-Accounted}
use nix_capsule.Runs.Toy.{json, host}

-- A request for `ls`, one chunk of output, and the child's exit with code 3.
abbrev schedule : Schedule
schedule = record {
  first = First.frame (ok (record { frame_type = FrameType.request; payload = codes "ls" }));
  bridge = Event.output (Chunk.out (codes "x")) ∷ Event.drained ∷ [];
  stop_first = false;
  wait = some (ok (record { code = some 3; signal = none }));
}

handle_conn-WellEnded_example :
    well_ended (conn_of (handle_conn json host (codes "1") schedule)).sent ≡ true
handle_conn-WellEnded_example = handle_conn-WellEnded json host (codes "1") schedule

handle_conn-Accounted_example : Accounted (handle_conn json host (codes "1") schedule)
handle_conn-Accounted_example = handle_conn-Accounted json host (codes "1") schedule

-- A line below the minimum, one that both sinks take, and one that the file takes a part of.
abbrev calls : List Call
calls =
    record {
      stamp = codes "t";
      taken = record { file = 99; mirror = 99 };
      level = LogLevel.debug;
      message = codes "a";
    }
    ∷ record {
      stamp = codes "t";
      taken = record { file = 99; mirror = 99 };
      level = LogLevel.error;
      message = codes "b";
    }
    ∷ record {
      stamp = codes "t";
      taken = record { file = 3; mirror = 99 };
      level = LogLevel.info;
      message = codes "c";
    }
    ∷ []

abbrev log : Log
log = record { min_level = LogLevel.info; file = []; mirror = [] }

partly_taken : (emit_all calls log).file ≡ codes "[t] error: b\n[t]"
unfolding emit_all emit_line rank as_str
partly_taken = refl

emit_all-kept_example :
    ((emit_all calls log).file ≡ log.file ++ kept (λ t. t.file) LogLevel.info calls)
    × ((emit_all calls log).mirror ≡ log.mirror ++ kept (λ t. t.mirror) LogLevel.info calls)
emit_all-kept_example = emit_all-kept calls log

leap_stamp : format_utc 951868799 ≡ codes "2000-02-29T23:59:59Z"
unfolding format_utc to_decimal
leap_stamp = refl

days_from_civil-date_of_days_example : days_from_civil (date_of_days 11016) ≡ 11016
days_from_civil-date_of_days_example = days_from_civil-date_of_days 11016

date_of_days_valid_example :
    (1 ≤ (date_of_days 11016).month)
    × ((date_of_days 11016).month ≤ 12)
    × ((1 ≤ (date_of_days 11016).day)
        × ((date_of_days 11016).day
            ≤ month_length (date_of_days 11016).year (date_of_days 11016).month))
date_of_days_valid_example = date_of_days_valid 11016

abbrev site : Site
site = record {
  create_dir = none;
  open_log = none;
  socket_there = true;
  connects = false;
  removal = none;
  bind = none;
  sigterm = none;
  sigint = none;
  pid = 1;
  epoch_millis = 5;
  ends = λ id. id * 100;
}

abbrev arrivals : List Arrival
arrivals = Arrival.accepted 4 ∷ Arrival.accepted 2 ∷ Arrival.failed (codes "e") ∷ []

abbrev site_run : Result StartupError (Unit {0}) × List Act
site_run = run site (codes "/s") (codes "/l") 1 arrivals (codes "SIGTERM")

soon : all (λ id. leb (site.ends id) (1 * 1000)) (handles arrivals) ≡ true
unfolding handles
soon = refl

stopped : site_run.0 ≡ ok tt
unfolding run probe_socket
stopped = refl

run_awaits_all_example : collect awaited_by site_run.1 ≡ collect spawned_by site_run.1
run_awaits_all_example =
    run_awaits_all site (codes "/s") (codes "/l") 1 arrivals (codes "SIGTERM") (omega arith) soon
      stopped

-- ===== src/Client/Tests.antt =====
-- The client against concrete servers.
use sccache.Prelude.{
  ℕ, zero, suc, pos, Text, codes, List, [], ◌∷◌, ◌≡◌, ◌≤◌, ◌+◌, refl, Option, none, some, true,
  false, arith, length, read_digits, read_decimal, decimal, digits, inl, inr, ◌⊎◌, sym, ap,
}
use sccache.Compiler.CachedCompile.{exited, Output, compile_failed}
use sccache.Protocol.Request.{
  new_request, set_get_stats, set_zero_stats, set_shutdown, set_compile, set_exe, set_cwd,
  set_command,
}
use sccache.Protocol.Response as Response
use sccache.Protocol.Response.{
  ServerResponse, CompileFinished, retcode, set_compile_started, set_compile_finished, new_response,
  set_stdout, set_stderr, set_retcode, set_stats, has_compile_started, has_compile_finished,
  take_compile_finished, has_stdout, has_stderr, get_stdout, get_stderr, has_retcode, get_retcode,
  has_signal,
}
use sccache.Server.Service as Service
use sccache.Server.Service.{call, get_stats, shutdown_response}
use sccache.Server.Duration.{zero_duration}
use sccache.Server.Stats.{default_stats}
use sccache.Server.Task.{end_task, count_result, cache_write_of, finish_of, set_status, code}
use sccache.Client.Wire.{Bytes, Wire, WireLaws}
use sccache.Client.Connection.{ServerConnection}
use sccache.Client.Output.{Screen, LocalOutput}
use sccache.Client.Compile.{compile_request, filter_map, do_compile}
use sccache.Client.Start.{
  parse_u16, get_port, ok, err, Attempt, connected, refused, retry, connect_with_retry,
  start_and_connect, connect_or_start_server, bytes, run_server_process, startup_of,
  startup_of_byte, notify_server_startup_internal,
}
use sccache.Client.Stats.{request_stats, request_zero_stats, request_shutdown}
use sccache.Client.Session
use sccache.Client.Session.{shown, exit_code, two_responses}
use sccache.Client.Reach
use sccache.Client.Report

program : Unit {0}
unfolding read_digits read_decimal decimal digits parse_u16 get_port retry connect_with_retry
    start_and_connect connect_or_start_server run_server_process startup_of startup_of_byte
    notify_server_startup_internal end_task count_result cache_write_of finish_of set_status code
    set_stdout set_stderr set_retcode set_compile_finished set_compile_started shown exit_code
    filter_map compile_request set_compile set_exe set_cwd set_command
program = tt

ignores_bad_port : get_port (some (codes "70000")) ≡ 4226
unfolding program
ignores_bad_port = refl

reads_plus : get_port (some (codes "+80")) ≡ 80
unfolding program
reads_plus = refl

-- A server's byte is what the client takes it for.
hears_failure :
    run_server_process true (bytes (notify_server_startup_internal false)) ≡ some (err 1)
unfolding program
hears_failure = refl

get_port-decimal_example : get_port (some (decimal 8080)) ≡ 8080
get_port-decimal_example = Reach.get_port-decimal 8080 (omega arith)

abbrev silent : ServerConnection
silent = record { reader = []; writer = []; writable = true }

-- The third attempt after the first connects.
abbrev slow_start : ℕ → Attempt
slow_start n = elim n [ suc (suc (suc zero)) ↦ connected silent | _ ↦ refused ]

connect_or_start_server-connects_example :
    (c : ServerConnection) × (j : ℕ) × (j ≤ 2)
    × (slow_start (1 + j) ≡ connected c)
    × (connect_or_start_server (some ok) slow_start ≡ some c)
connect_or_start_server-connects_example =
    Reach.connect_or_start_server-connects slow_start ok 2 silent (inl refl) (omega arith) refl

-- A compiler that warns and exits with 1.
abbrev output : Output
output = record { status = exited 1; stdout = []; stderr = codes "no" }

abbrev started : ServerResponse
started = record { response = some Response.compile_started }

abbrev finished : ServerResponse
finished = record {
  response = some (
      Response.compile_finished (record {
        stdout = some [];
        stderr = some (codes "no");
        exit_status = some (retcode (pos 1));
      }));
}

-- A wire that knows these two responses.
abbrev read_byte : Bytes → Option (ℕ × Bytes)
read_byte [] = none
read_byte (b ∷ bs) = some (b, bs)

abbrev response_of : Bytes → Option ServerResponse
response_of [] = none
response_of (b ∷ []) = some started
response_of (b ∷ c ∷ bs) = some finished

abbrev body_of : ServerResponse → Bytes
body_of r = elim r.response [ some Response.compile_started ↦ 0 ∷ [] | _ ↦ 0 ∷ 0 ∷ [] ]

abbrev wire : Wire
wire = record {
  write_request = λ r. some (7 ∷ []);
  write_response = λ r. some (length (body_of r) ∷ body_of r);
  read_raw_varint32 = read_byte;
  parse_response = response_of;
}

abbrev wire-WireLaws : WireLaws wire
wire-WireLaws = record {
  Ready = λ m. (m ≡ started) ⊎ (m ≡ finished);
  prefix = λ n. n ∷ [];
  body = body_of;
  read-prefix = λ m rest r. refl;
  parse-body = λ m r. elim r [ inl h ↦ rw h refl | inr h ↦ rw h refl ];
  write_eq = λ m r. refl;
}

abbrev blank : Screen
blank = record {
  stdout = record { written = []; room = 100 };
  stderr = record { written = []; room = 100 };
  notes = [];
}

abbrev no_run : Text → List Text → Text → Option LocalOutput
no_run exe args cwd = none

abbrev answered : ServerConnection
answered = record { reader = 1 ∷ 0 ∷ 2 ∷ 0 ∷ 0 ∷ []; writer = []; writable = true }

abbrev service : Service.Service
service = record {
  stats = default_stats;
  compilers = [];
  force_recache = false;
  storage = record { location = codes "Local disk"; current_size = some 5; max_size = none };
}

do_compile-end_task_example :
    do_compile wire
      (λ t. some t)
      no_run
      (λ exe cwd. some exe)
      answered
      (codes "gcc")
      (codes "-c" ∷ [])
      (codes "/w")
      blank
    ≡ (record blank { stderr = record { written = codes "no"; room = 98 } }, some (pos 1))
unfolding program
do_compile-end_task_example =
    Session.do_compile-end_task wire wire-WireLaws (λ t. some t) no_run (λ exe cwd. some exe)
      answered (codes "gcc") (codes "gcc") (codes "gcc") (codes "/w") (codes "/w") (codes "-c" ∷ [])
      (7 ∷ []) [] service compile_failed output zero_duration
      (record {
        service = record service { stats = record default_stats { compile_fails = 1 } };
        response = finished;
        cache_write = none;
      })
      blank refl refl refl refl (inl refl) refl refl refl (inr refl) refl (omega arith)
      (omega arith)

-- What the wire says of a shutdown, for the requests of statistics.
abbrev told : ServerResponse
told = elim (get_stats service) [ none ↦ new_response | some stats ↦ set_stats new_response stats ]

-- A wire that knows this one.
abbrev stats_wire : Wire
stats_wire = record {
  write_request = λ r. some (7 ∷ []);
  write_response = λ r. some (1 ∷ 9 ∷ []);
  read_raw_varint32 = read_byte;
  parse_response = λ bs. some told;
}

abbrev stats_wire-WireLaws : WireLaws stats_wire
stats_wire-WireLaws = record {
  Ready = λ m. m ≡ told;
  prefix = λ n. n ∷ [];
  body = λ m. 9 ∷ [];
  read-prefix = λ m rest r. refl;
  parse-body = λ m r. sym (ap some r);
  write_eq = λ m r. refl;
}

abbrev telling : ServerConnection
telling = record { reader = 1 ∷ 9 ∷ []; writer = []; writable = true }

request_stats-call_example :
    ((call service (set_get_stats new_request)).handled ≡ Service.responds told
      → ◌≡◌ {A = Option Bytes} (some (7 ∷ [])) (some (7 ∷ []))
      → request_stats stats_wire telling ≡ get_stats service)
    × ((call service (set_zero_stats new_request)).handled ≡ Service.responds told
        → ◌≡◌ {A = Option Bytes} (some (7 ∷ [])) (some (7 ∷ []))
        → request_zero_stats stats_wire telling
          ≡ get_stats (call service (set_zero_stats new_request)).service)
    × ((call service (set_shutdown new_request)).handled ≡ Service.shuts_down
        → shutdown_response service ≡ some told
        → ◌≡◌ {A = Option Bytes} (some (7 ∷ [])) (some (7 ∷ []))
        → request_shutdown stats_wire telling ≡ get_stats service)
request_stats-call_example =
    Report.request_stats-call stats_wire stats_wire-WireLaws telling service told (7 ∷ []) [] refl
      refl refl

-- ===== src/Server/Tests.antt =====
-- The server at concrete requests.
use sccache.Prelude.{
  ℕ, Text, codes, List, [], ◌∷◌, ◌≡◌, ◌≤◌, ◌+◌, ◌↔◌, ◌⊎◌, refl, Option, none, some, true, false,
  arith, leb, text_eq, decimal, digits,
}
use sccache.Fs.{File, write_file, open_file, Fs, metadata}
use sccache.Lru.{find, erase}
use sccache.Compiler.{CompilerArguments, not_compilation, clang}
use sccache.Kinds.Info.{Compiler, get_compiler_info, with_kind}
use sccache.Kinds.Info
use sccache.Compiler.CachedCompile.{exited}
use sccache.Kinds.Detect.{detect_compiler_kind, named}
use sccache.Msvc.Prefix.{lines}
use sccache.FilePath.{join, is_absolute, with_separator, ends_in_slash}
use sccache.Compiler.Process.{System, write_temp_file}
use sccache.Prelude.{if◌then◌else◌, ◌==◌}
use sccache.Protocol.Request as Request
use sccache.Protocol.Request.{
  ClientRequest, has_compile, take_compile, take_exe, take_command, take_cwd,
}
use sccache.Protocol.Response.{new_response, set_unhandled_compile}
use sccache.Server.Duration.{zero_duration, add, new_duration, div, show}
use sccache.Server.Stats.{default_stats, average}
use sccache.Server.Service as Service
use sccache.Server.Service.{
  Service, StorageInfo, call, remember_compiler, handle_compile, check_compiler, check_arguments,
  checks, unhandled, get_stats, compiler_info, known_compiler, request, shutdown, ServerMessage,
}
use sccache.Server.Task.{end_task, count_result, cache_write_of}
use sccache.Server.World.{
  World, Event, requested, checked, abandons, run, step, start, after_call, after_check, after_task,
}
use sccache.Server.Balanced.{Balanced}
use sccache.Server.Ledger.{run-Balanced}
use sccache.Server.Known
use sccache.Server.Unsupported
use sccache.Server.Average.{Wrapped, get_stats-panics, Proper}
use sccache.Server.Shutdown.{
  Timer, TimerLaws, poll, watch, poll_timeout, ready, asks_shutdown, last_request, watch-poll,
}
use sccache.Server.Active as Active
use sccache.Server.Handles as Handles
use sccache.Server.Handles.{Handles, clones, drops, polls}

program : Unit {0}
unfolding run step start after_call after_check after_task call has_compile take_compile
    check_compiler check_arguments end_task count_result cache_write_of add new_duration
    remember_compiler poll watch poll_timeout asks_shutdown last_request Handles.run Handles.step
    Handles.start Handles.without Active.new Active.clone Active.drop Active.poll handle_compile
    take_exe compiler_info known_compiler find erase metadata text_eq Service.new average div
    get_compiler_info with_kind Info.new write_file open_file write_temp_file lines
    detect_compiler_kind named join is_absolute with_separator ends_in_slash show decimal digits
program = tt

abbrev storage : StorageInfo
storage = record { location = codes "Local disk"; current_size = some 5; max_size = some 10 }

abbrev compile : ClientRequest
compile = record {
  request = some (
      Request.compile
        (record { cwd = some (codes "/w"); exe = some (codes "cc"); command = codes "-c" ∷ [] }));
}

abbrev no_arguments : Compiler → List Text → Text → Option CompilerArguments
no_arguments c cmd cwd = some not_compilation

-- A request for a compiler that is not known, and one whose connection ends.
abbrev events : List Event
events =
    requested compile
    ∷ requested compile
    ∷ checked none (codes "-c" ∷ []) (codes "/w")
    ∷ abandons
    ∷ []

abbrev world_after : World
world_after = record {
  service = record {
    stats = record default_stats { compile_requests = 2; requests_unsupported_compiler = 1 };
    compilers = [];
    force_recache = false;
    storage = storage;
  };
  waiting = 0;
  running = 0;
  writing = 0;
  waiting_before = 0;
  running_before = 0;
  writing_before = 0;
  abandoned = 1;
  dropped = 0;
}

run-Balanced_example : Balanced world_after
unfolding program
run-Balanced_example = run-Balanced no_arguments storage false events world_after refl

-- A timer is the time at which it expires.
abbrev clock : Timer
clock = record { Timeout = ℕ; new = λ now dur. some (now + dur); expired = λ now t. leb t now }

some_inj : {m n : ℕ} → some m ≡ some n → m ≡ n
some_inj h = cc

clock-TimerLaws : TimerLaws clock
clock-TimerLaws = record {
  starts = λ now dur. (now + dur, refl);
  expired_iff = λ now dur later t h. rw (some_inj h) refl;
}

-- A request at 50, none at 120: the timer of 100 runs until 150.
watch-poll_example :
    ((poll clock 120 (record { timeout = 150; timeout_dur = 100 }) [] false).1 ≡ ready) ↔ (
      (asks_shutdown [] ≡ true)
      ⊎ (last_request 0 ((50, request ∷ []) ∷ (120, []) ∷ []) + 100 ≤ 120))
unfolding program
watch-poll_example =
    watch-poll clock clock-TimerLaws 0 100 120 100 (record { timeout = 150; timeout_dur = 100 })
      ((50, request ∷ []) ∷ []) [] refl refl

-- Two handles, dropped after a task has been told to wait twice.
abbrev handles_after : Handles
handles_after = record { info = record { active = 0; blocker = none }; alive = 0; waiting = [] }

run-ready_example :
    (((Active.poll 4 handles_after.info).1 ≡ true) ↔ (handles_after.alive ≡ 0))
    × (handles_after.alive ≡ 0 → handles_after.waiting ≡ [])
unfolding program
run-ready_example =
    Handles.run-ready 4 (clones ∷ polls 4 ∷ drops ∷ polls 4 ∷ drops ∷ []) handles_after
      (tt, (refl, (tt, (refl, (tt, tt))))) refl

abbrev service : Service
service = record {
  stats = record default_stats { cache_hits = 4294967296 };
  compilers = [];
  force_recache = false;
  storage = storage;
}

abbrev zero_duration-Proper : Proper zero_duration
zero_duration-Proper = record { secs_small = omega arith; nanos_small = omega arith }

get_stats-panics_example :
    (get_stats service ≡ none) ↔ (Wrapped 0 ⊎ (Wrapped 0 ⊎ Wrapped 4294967296))
get_stats-panics_example =
    get_stats-panics service zero_duration-Proper zero_duration-Proper zero_duration-Proper

abbrev disk : Fs
disk = record {
  files = λ p. some (record { contents = codes "cc"; mtime = 9 });
  denied = λ c p. false;
  now = 10;
  partial = 0;
}

abbrev request_of_cc : Request.Compile
request_of_cc = record {
  cwd = some (codes "/w");
  exe = some (codes "cc");
  command = codes "-c" ∷ [];
}

-- A request comes in between.
abbrev later : World
later = record {
  service = record {
    stats = record default_stats { compile_requests = 1 };
    compilers = (codes "cc", none) ∷ [];
    force_recache = false;
    storage = storage;
  };
  waiting = 1;
  running = 0;
  writing = 0;
  waiting_before = 0;
  running_before = 0;
  writing_before = 0;
  abandoned = 0;
  dropped = 0;
}

handle_compile-unsupported_example :
    handle_compile no_arguments later.service disk request_of_cc
    ≡ some (
        checks
          (record (later.service) {
            stats = record (later.service.stats) { requests_unsupported_compiler = 1 };
          })
          (unhandled (set_unhandled_compile new_response)))
unfolding program
handle_compile-unsupported_example =
    Unsupported.handle_compile-unsupported no_arguments (codes "cc") (requested compile ∷ [])
      (start storage false) later disk request_of_cc (record { contents = codes "cc"; mtime = 9 })
      (tt, tt) refl refl refl

abbrev clang_system : System
clang_system = record {
  run = λ fs args input.
      (disk, some (record { status = exited 0; stdout = codes "# 1\nclang\n"; stderr = [] }));
  temp_dir = λ fs. (fs, some (codes "/tmp/x"));
  drop_temp = λ fs dir. disk;
}

abbrev clang_of_cc : Compiler
clang_of_cc = record { executable = codes "cc"; mtime = 9; digest = codes "cc"; kind = clang }

compiler_info-get_compiler_info_example :
    (seen : File) × (metadata
        (detect_compiler_kind clang_system (λ bytes. some bytes) (λ bytes. some bytes) disk).0
        (codes "cc")
      ≡ some seen)
    × (codes "cc" ≡ seen.contents)
    × (compiler_info (remember_compiler service (codes "cc") (some clang_of_cc)) disk (codes "cc")
        ≡ (if seen.mtime == 9 then some (some clang_of_cc) else none))
unfolding program
compiler_info-get_compiler_info_example =
    Known.compiler_info-get_compiler_info (λ bytes. bytes) clang_system (λ bytes. some bytes)
      (λ bytes. some bytes) disk disk (codes "cc") clang_of_cc service
      (record { contents = codes "cc"; mtime = 9 }) refl refl

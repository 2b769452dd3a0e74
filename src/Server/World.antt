-- ===== src/Server/World.antt =====
-- The server of src/server.rs with what is under way, as a machine whose steps are the requests and
-- the ends of lookups, compilations and cache writes, in any order.
use sccache.Prelude.{ℕ, zero, suc, ◌+◌, Text, List, [], ◌∷◌, Option, none, some, ◌>>=◌, Bool}
use sccache.Compiler.{CompilerArguments}
use sccache.Compiler.CachedCompile.{Output, CompileResult, PendingWrite}
use sccache.Kinds.Info.{Compiler}
use sccache.Protocol.Request as Request
use sccache.Protocol.Request.{
  ClientRequest, has_compile, has_get_stats, has_zero_stats, has_shutdown,
}
use sccache.Server.Duration.{Duration}
use sccache.Server.Service.{
  Service, StorageInfo, call, remember_compiler, check_compiler, check_arguments, Checked,
  unhandled, started, zero_stats,
}
use sccache.Server.Service
use sccache.Server.Task.{end_task, end_write}

-- The service, with how many compile requests wait for their check, compilations run, and cache
-- writes are under way, now and when the statistics were last zeroed, and how many requests and
-- writes have been given up since then.
pub record World : Type 0 where
  pub service : Service
  pub waiting : ℕ
  pub running : ℕ
  pub writing : ℕ
  pub waiting_before : ℕ
  pub running_before : ℕ
  pub writing_before : ℕ
  pub abandoned : ℕ
  pub dropped : ℕ

-- A connection that ends drops its requests that wait for their check. If the response of a
-- compilation cannot be sent, `join` drops its cache write.
pub data Event : Type 0 where
  requested : ClientRequest → Event
  remembered : Text → Option Compiler → Event
  checked : Option Compiler → List Text → Text → Event
  finished : Option (CompileResult × Output) → Duration → Event
  wrote : Option Duration → Event
  abandons : Event
  drops_write : Event

unfoldable pub start : StorageInfo → Bool → World
unfolding Service.new
start storage recache = record {
  service = Service.new storage recache;
  waiting = 0;
  running = 0;
  writing = 0;
  waiting_before = 0;
  running_before = 0;
  writing_before = 0;
  abandoned = 0;
  dropped = 0;
}

unfoldable pub after_call : World → Service → Option Request.Oneof → World
after_call w s (some (Request.compile c)) = record w { service = s; waiting = w.waiting + 1 }
after_call w s (some Request.zero_stats) = record w {
  service = s;
  waiting_before = w.waiting;
  running_before = w.running;
  writing_before = w.writing;
  abandoned = 0;
  dropped = 0;
}
after_call w s (some Request.get_stats) = record w { service = s }
after_call w s (some Request.shutdown) = record w { service = s }
after_call w s none = record w { service = s }

-- One compile request waits less, and a compilation runs if it was started.
unfoldable pub after_check : World → ℕ → Service × Checked → World
after_check w n (s, unhandled r) = record w { service = s; waiting = n }
after_check w n (s, started r c args) = record w {
  service = s;
  waiting = n;
  running = w.running + 1;
}

unfoldable pub after_task : World → ℕ → Service → Option PendingWrite → World
after_task w n s none = record w { service = s; running = n }
after_task w n s (some write) = record w { service = s; running = n; writing = w.writing + 1 }

module _ (parse : Compiler → List Text → Text → Option CompilerArguments) where
  -- `none` if nothing is under way that could end so, or if the code panics or does not return.
  unfoldable pub step : World → Event → Option World
  unfolding call remember_compiler check_compiler end_task end_write after_call after_check
      after_task
  step w (requested r) = some (after_call w (call w.service r).service r.request)
  step w (remembered path info) =
      some (record w { service = remember_compiler w.service path info })
  step w (checked info cmd cwd) = elim w.waiting [
    | zero ↦ none
    | suc n ↦ (do
      result ← check_compiler parse w.service info cmd cwd
      some (after_check w n result))
  ]
  step w (finished result time) = elim w.running [
    | zero ↦ none
    | suc n ↦ (do
      ended ← end_task w.service result time
      some (after_task w n ended.service ended.cache_write))
  ]
  step w (wrote outcome) = elim w.writing [
    | zero ↦ none
    | suc n ↦ (do s ← end_write w.service outcome; some (record w { service = s; writing = n }))
  ]
  step w abandons = elim w.waiting [
    | zero ↦ none
    | suc n ↦ some (record w { waiting = n; abandoned = w.abandoned + 1 })
  ]
  step w drops_write = elim w.writing [
    | zero ↦ none
    | suc n ↦ some (record w { writing = n; dropped = w.dropped + 1 })
  ]

  unfoldable pub run : World → List Event → Option World
  unfolding step
  run w [] = some w
  run w (e ∷ es) = do w' ← step w e; run w' es

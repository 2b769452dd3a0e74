-- ===== src/Server/Service.antt =====
-- `SccacheService` of src/server.rs: what it does at a request, when a compiler is known, when a
-- compilation has ended and when its entry has been written.
use sccache.Prelude.{
  ℕ, Text, codes, List, [], ◌∷◌, Option, none, some, ◌+◌, Bool, u64, ◌==◌, if◌then◌else◌, ◌>>=◌,
}
use sccache.Fs.{Fs, metadata}
use sccache.Lru.{find, erase}
use sccache.Compiler.{ParsedArguments, CompilerArguments, ok, cannot_cache, not_compilation}
use sccache.Kinds.Info.{Compiler}
use sccache.Protocol.Request as Request
use sccache.Protocol.Request.{
  ClientRequest, has_compile, has_get_stats, has_zero_stats, has_shutdown, take_compile, take_exe,
  take_cwd, take_command,
}
use sccache.Protocol.Statistic as Statistic
use sccache.Protocol.Statistic.{
  CacheStatistic, CacheStats, new_statistic, new_stats, set_name, set_str, set_size,
}
use sccache.Protocol.Response.{
  ServerResponse, new_response, new_shutting_down, set_stats, set_shutting_down, set_final_stats,
  set_unknown, set_unhandled_compile, set_compile_started,
}
use sccache.Server.Stats.{ServerStats, default_stats, to_cache_statistics}

-- What `storage` reports of itself.
pub record StorageInfo : Type 0 where
  pub location : Text
  pub current_size : Option ℕ
  pub max_size : Option ℕ

-- The handles of the pool, the event loop and the processes have no state of their own here.
pub record Service : Type 0 where
  pub stats : ServerStats
  pub compilers : List (Text × Option Compiler)
  pub force_recache : Bool
  pub storage : StorageInfo

pub data ServerMessage : Type 0 where
  request : ServerMessage
  shutdown : ServerMessage

-- `SccacheService::new`; `recache` says whether SCCACHE_RECACHE is set.
unfoldable pub new : StorageInfo → Bool → Service
new storage recache = record {
  stats = default_stats;
  compilers = [];
  force_recache = recache;
  storage = storage;
}

-- A size that the storage knows goes in front.
unfoldable pub insert_size : Text → Option ℕ → List CacheStatistic → List CacheStatistic
unfolding set_name set_size
insert_size name none stats = stats
insert_size name (some n) stats = set_size (set_name new_statistic name) n ∷ stats

-- `get_stats`; `none` is a panic.
unfoldable pub get_stats : Service → Option CacheStats
unfolding to_cache_statistics set_name set_str Statistic.set_stats insert_size
get_stats s = do
  stats ← to_cache_statistics s.stats
  let location = set_str (set_name new_statistic (codes "Cache location")) s.storage.location
  let sized = insert_size (codes "Cache size") s.storage.current_size (location ∷ stats)
  some (
      Statistic.set_stats new_stats (insert_size (codes "Max cache size") s.storage.max_size sized))

unfoldable pub zero_stats : Service → Service × Option CacheStats
unfolding get_stats
zero_stats s = let zeroed = record s { stats = default_stats } in (zeroed, get_stats zeroed)

-- What a request leads to: a response, a compilation to be handled, a response that waits until the
-- main loop has been told to shut down, or a panic.
pub data Handled : Type 0 where
  responds : ServerResponse → Handled
  compiles : Request.Compile → Handled
  shuts_down : Handled
  panics : Handled

unfoldable pub respond_stats : Option CacheStats → Handled
unfolding set_stats
respond_stats none = panics
respond_stats (some stats) = responds (set_stats new_response stats)

pub record Called : Type 0 where
  pub sent : List ServerMessage
  pub service : Service
  pub handled : Handled

-- `call`, up to `handle_compile` and up to the answer of the channel.
unfoldable pub call : Service → ClientRequest → Called
unfolding has_compile take_compile has_get_stats get_stats respond_stats has_zero_stats zero_stats
    has_shutdown set_unknown
call s req =
    if has_compile req
    then record {
      sent = request ∷ [];
      service = record s {
        stats = record (s.stats) { compile_requests = u64 (s.stats.compile_requests + 1) };
      };
      handled = compiles (take_compile req).0;
    }
    else if has_get_stats req
    then record { sent = request ∷ []; service = s; handled = respond_stats (get_stats s) }
    else if has_zero_stats req
    then record {
      sent = request ∷ [];
      service = (zero_stats s).0;
      handled = respond_stats (zero_stats s).1;
    }
    else if has_shutdown req
    then record { sent = request ∷ shutdown ∷ []; service = s; handled = shuts_down }
    else record { sent = request ∷ []; service = s; handled = responds (set_unknown new_response) }

-- The rest of `call` on a shutdown request, once the message is sent.
unfoldable pub shutdown_response : Service → Option ServerResponse
unfolding get_stats set_final_stats set_shutting_down
shutdown_response s = do
  stats ← get_stats s
  some (set_shutting_down new_response (set_final_stats new_shutting_down stats))

-- What `compilers` tells of a path with this modification time; `none` is no answer.
unfoldable pub known_compiler : ℕ → Option (Option Compiler) → Option (Option Compiler)
known_compiler mtime (some (some c)) = if c.mtime == mtime then some (some c) else none
known_compiler mtime (some none) = some none
known_compiler mtime none = none

-- `compiler_info` up to the call of `get_compiler_info`: `none` is a miss.
unfoldable pub compiler_info : Service → Fs → Text → Option (Option Compiler)
unfolding known_compiler metadata find
compiler_info s fs path = elim (metadata fs path) [
  | none ↦ none
  | some attr ↦ known_compiler attr.mtime (find path s.compilers)
]

-- The end of `compiler_info` on a miss: what `get_compiler_info` answered is kept.
unfoldable pub remember_compiler : Service → Text → Option Compiler → Service
unfolding erase
remember_compiler s path info = record s { compilers = (path, info) ∷ erase path s.compilers }

-- What `check_compiler` leads to.
pub data Checked : Type 0 where
  unhandled : ServerResponse → Checked
  started : ServerResponse → Compiler → ParsedArguments → Checked

-- The `match` on the parsed arguments, and what follows it.
unfoldable pub check_arguments : Service → Compiler → CompilerArguments → Service × Checked
unfolding set_compile_started set_unhandled_compile
check_arguments s c (ok args) = (
  record s { stats = record (s.stats) { requests_executed = u64 (s.stats.requests_executed + 1) } },
  started (set_compile_started new_response) c args,
)
check_arguments s c cannot_cache = (
  record s {
    stats = record (s.stats) { requests_not_cacheable = u64 (s.stats.requests_not_cacheable + 1) };
  },
  unhandled (set_unhandled_compile new_response),
)
check_arguments s c not_compilation = (
  record s {
    stats = record (s.stats) { requests_not_compile = u64 (s.stats.requests_not_compile + 1) };
  },
  unhandled (set_unhandled_compile new_response),
)

-- `parse` is `parse_arguments` of the compiler, which has no answer if it does not end.
module _ (parse : Compiler → List Text → Text → Option CompilerArguments) where
  unfoldable pub check_compiler :
      Service → Option Compiler → List Text → Text → Option (Service × Checked)
  unfolding check_arguments set_unhandled_compile
  check_compiler s none cmd cwd = some (
    record s {
      stats = record (s.stats) {
        requests_unsupported_compiler = u64 (s.stats.requests_unsupported_compiler + 1);
      };
    },
    unhandled (set_unhandled_compile new_response),
  )
  check_compiler s (some c) cmd cwd = do parsed ← parse c cmd cwd; some (check_arguments s c parsed)

  -- What `handle_compile` does at once: the path that is not known yet, or the check.
  pub data Begun : Type 0 where
    asks : Text → List Text → Text → Begun
    checks : Service → Checked → Begun

  unfoldable pub handle_compile : Service → Fs → Request.Compile → Option Begun
  unfolding take_exe take_command take_cwd compiler_info check_compiler
  handle_compile s fs compile =
      let (exe, compile1) = take_exe compile in
      let (cmd, compile2) = take_command compile1 in
      let (cwd, compile3) = take_cwd compile2 in
      elim (compiler_info s fs exe) [
        | none ↦ some (asks exe cmd cwd)
        | some info ↦ (do (s', checked) ← check_compiler s info cmd cwd; some (checks s' checked))
      ]

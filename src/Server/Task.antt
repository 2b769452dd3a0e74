-- ===== src/Server/Task.antt =====
-- `start_compile_task` of src/server.rs: what is counted and sent when a compilation has ended, and
-- when its entry has been written.
use sccache.Prelude.{ℤ, pos, negsuc, Option, none, some, ◌+◌, u64, if◌then◌else◌, ◌>>=◌}
use sccache.Compiler.CachedCompile.{
  ExitStatus, exited, signalled, Output, CompileResult, error, cache_hit, cache_miss, not_cacheable,
  compile_failed, MissType, normal, forced_recache, PendingWrite, CacheControl, default,
  force_recache,
}
use sccache.Protocol.Response.{
  ServerResponse, CompileFinished, new_response, new_finished, set_retcode, set_stdout, set_stderr,
  set_compile_finished,
}
use sccache.Server.Duration.{Duration, add}
use sccache.Server.Stats.{ServerStats}
use sccache.Server.Service.{Service}

unfoldable pub cache_control : Service → CacheControl
cache_control s = if s.force_recache then force_recache else default

unfoldable pub count_miss : ServerStats → MissType → ServerStats
count_miss stats normal = record stats { cache_misses = u64 (stats.cache_misses + 1) }
count_miss stats forced_recache = record stats {
  cache_misses = u64 (stats.cache_misses + 1);
  forced_recaches = u64 (stats.forced_recaches + 1);
}

-- The `match` on `compiled`, with the time that the result carries if it is a hit or a miss; `none`
-- is the panic of a sum of durations.
unfoldable pub count_result : ServerStats → CompileResult → Duration → Option ServerStats
unfolding add count_miss
count_result stats error time = some (record stats { cache_errors = u64 (stats.cache_errors + 1) })
count_result stats cache_hit time = do
  total ← add stats.cache_read_hit_duration time
  some (record stats { cache_hits = u64 (stats.cache_hits + 1); cache_read_hit_duration = total })
count_result stats (cache_miss kind w) time = do
  total ← add stats.cache_read_miss_duration time
  some (record (count_miss stats kind) { cache_read_miss_duration = total })
count_result stats not_cacheable time = some (record stats {
  cache_misses = u64 (stats.cache_misses + 1);
  non_cacheable_compilations = u64 (stats.non_cacheable_compilations + 1);
})
count_result stats compile_failed time =
    some (record stats { compile_fails = u64 (stats.compile_fails + 1) })

-- The write that a miss leaves to be done.
unfoldable pub cache_write_of : CompileResult → Option PendingWrite
cache_write_of (cache_miss kind w) = some w
cache_write_of error = none
cache_write_of cache_hit = none
cache_write_of not_cacheable = none
cache_write_of compile_failed = none

-- `ExitStatus::code`
unfoldable pub code : ExitStatus → Option ℤ
code (exited n) = some (pos n)
code signalled = none

-- Without a code no status is set.
unfoldable pub set_status : CompileFinished → Option ℤ → CompileFinished
unfolding set_retcode
set_status finish none = finish
set_status finish (some n) = set_retcode finish n

unfoldable pub finish_of : Output → CompileFinished
unfolding set_status code set_stdout set_stderr
finish_of out =
    set_stderr (set_stdout (set_status new_finished (code out.status)) out.stdout) out.stderr

pub record Ended : Type 0 where
  pub service : Service
  pub response : ServerResponse
  pub cache_write : Option PendingWrite

-- What is done with the result of `get_cached_or_compile`, of which `none` is an error: the response
-- that is sent, and the write that is waited for.
unfoldable pub end_task : Service → Option (CompileResult × Output) → Duration → Option Ended
unfolding count_result cache_write_of finish_of set_compile_finished set_retcode
end_task s none time = some (record {
  service = record s { stats = record (s.stats) { cache_errors = u64 (s.stats.cache_errors + 1) } };
  response = set_compile_finished new_response (set_retcode new_finished (negsuc 1));
  cache_write = none;
})
end_task s (some (compiled, out)) time = do
  stats ← count_result s.stats compiled time
  some (record {
    service = record s { stats = stats };
    response = set_compile_finished new_response (finish_of out);
    cache_write = cache_write_of compiled;
  })

-- The end of a cache write, with the time it took; `none` is an error.
unfoldable pub end_write : Service → Option Duration → Option Service
unfolding add
end_write s none = some (record s {
  stats = record (s.stats) { cache_write_errors = u64 (s.stats.cache_write_errors + 1) };
})
end_write s (some time) = do
  total ← add s.stats.cache_write_duration time
  some (record s {
    stats = record (s.stats) {
      cache_writes = u64 (s.stats.cache_writes + 1);
      cache_write_duration = total;
    };
  })

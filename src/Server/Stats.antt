-- ===== src/Server/Stats.antt =====
-- `ServerStats` of src/server.rs.
use sccache.Prelude.{
  ℕ, Text, codes, List, [], ◌∷◌, ◌++◌, Option, some, ◌%◌, ltb, if◌then◌else◌, ◌>>=◌,
}
use sccache.Protocol.Statistic.{CacheStatistic, new_statistic, set_name, set_count, set_str}
use sccache.Server.Duration.{Duration, zero_duration, div, show}

-- The counters are `u64`.
pub record ServerStats : Type 0 where
  pub compile_requests : ℕ
  pub requests_unsupported_compiler : ℕ
  pub requests_not_compile : ℕ
  pub requests_not_cacheable : ℕ
  pub requests_executed : ℕ
  pub cache_errors : ℕ
  pub cache_hits : ℕ
  pub cache_misses : ℕ
  pub non_cacheable_compilations : ℕ
  pub forced_recaches : ℕ
  pub cache_write_errors : ℕ
  pub cache_writes : ℕ
  pub cache_write_duration : Duration
  pub cache_read_hit_duration : Duration
  pub cache_read_miss_duration : Duration
  pub compile_fails : ℕ

abbrev pub default_stats : ServerStats
default_stats = record {
  compile_requests = 0;
  requests_unsupported_compiler = 0;
  requests_not_compile = 0;
  requests_not_cacheable = 0;
  requests_executed = 0;
  cache_errors = 0;
  cache_hits = 0;
  cache_misses = 0;
  non_cacheable_compilations = 0;
  forced_recaches = 0;
  cache_write_errors = 0;
  cache_writes = 0;
  cache_write_duration = zero_duration;
  cache_read_hit_duration = zero_duration;
  cache_read_miss_duration = zero_duration;
  compile_fails = 0;
}

-- The macro `set_stat!`, without the push.
unfoldable pub set_stat : ℕ → Text → CacheStatistic
unfolding set_name set_count
set_stat count name = set_count (set_name new_statistic name) count

-- A text for a duration, if the division does not panic: `$num as u32` keeps 32 bits.
unfoldable pub average : Duration → ℕ → Option Text
unfolding div show
average dur num =
    if ltb 0 num then (do d ← div dur (num % 4294967296); some (show d)) else some (codes "0.000 s")

-- The macro `set_duration_stat!`, without the push.
unfoldable pub set_duration_stat : Duration → ℕ → Text → Option CacheStatistic
unfolding set_name set_str average
set_duration_stat dur num name = do
  text ← average dur num
  some (set_str (set_name new_statistic name) text)

-- `ServerStats::to_cache_statistics`; `none` is a panic.
unfoldable pub to_cache_statistics : ServerStats → Option (List CacheStatistic)
unfolding set_stat set_duration_stat
to_cache_statistics s = do
  let counts =
      set_stat s.compile_requests (codes "Compile requests")
      ∷ set_stat s.requests_executed (codes "Compile requests executed")
      ∷ set_stat s.cache_hits (codes "Cache hits")
      ∷ set_stat s.cache_misses (codes "Cache misses")
      ∷ set_stat s.forced_recaches (codes "Forced recaches")
      ∷ set_stat s.cache_write_errors (codes "Cache write errors")
      ∷ set_stat s.compile_fails (codes "Compilation failures")
      ∷ set_stat s.cache_errors (codes "Cache errors")
      ∷ set_stat s.non_cacheable_compilations
          (codes "Successful compilations which could not be cached")
      ∷ set_stat s.requests_not_cacheable (codes "Non-cacheable calls")
      ∷ set_stat s.requests_not_compile (codes "Non-compilation calls")
      ∷ set_stat s.requests_unsupported_compiler (codes "Unsupported compiler calls")
      ∷ []
  write ← set_duration_stat s.cache_write_duration s.cache_writes (codes "Average cache write")
  read_miss ←
      set_duration_stat s.cache_read_miss_duration s.cache_misses (codes "Average cache read miss")
  read_hit ←
      set_duration_stat s.cache_read_hit_duration s.cache_hits (codes "Average cache read hit")
  some (counts ++ write ∷ read_miss ∷ read_hit ∷ [])

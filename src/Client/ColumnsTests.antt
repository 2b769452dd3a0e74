-- ===== src/Client/ColumnsTests.antt =====
-- `print_stats` on two statistics, one with a letter outside ASCII.
use sccache.Prelude.{
  ℕ, Text, codes, List, [], ◌∷◌, ◌≡◌, refl, none, some, false, length, All, decimal, digits,
}
use sccache.Protocol.Statistic.{
  CacheStatistic, CacheStats, new_stats, new_statistic, set_name, set_count, set_str, get_name,
  has_count, get_count, has_str, get_str,
}
use sccache.Client.Stats.{max, show_line, show_value, format_stat, show_lines, print_stats}
use sccache.Client.Columns.{print_stats-columns}
use sccache.Server.Service.{Service, get_stats}
use sccache.Client.Printed.{print_stats-get_stats}
use sccache.Server.Stats.{default_stats, to_cache_statistics, set_duration_stat, average}

abbrev hits : CacheStatistic
unfolding set_name set_count
hits = set_count (set_name new_statistic (codes "Cache hits")) 12

abbrev wait : CacheStatistic
unfolding set_name set_str
wait = set_str (set_name new_statistic (codes "Délai")) (codes "0.250 s")

abbrev two_stats : CacheStats
unfolding hits wait
two_stats = record { stats = hits ∷ wait ∷ [] }

printed :
    print_stats decimal two_stats
    ≡ some (codes "Cache hits      12" ∷ codes "Délai      0.250 s" ∷ [])
unfolding print_stats format_stat max show_lines show_line show_value get_name has_count get_count
    has_str get_str decimal digits two_stats
printed = refl

print_stats-columns_example :
    (lines : List Text) × (width : ℕ) × (print_stats decimal two_stats ≡ some lines)
    × (length lines ≡ 2)
    × All (λ l. length l ≡ width) lines
unfolding two_stats
print_stats-columns_example = print_stats-columns decimal two_stats hits (wait ∷ []) refl

-- A server that has counted three requests, with a storage that knows one of its sizes.
abbrev three_requests : Service
three_requests = record {
  stats = record default_stats { compile_requests = 3 };
  compilers = [];
  force_recache = false;
  storage = record { location = codes "Local disk"; current_size = some 5; max_size = none };
}

abbrev sent : CacheStats
unfolding get_stats
sent = elim (get_stats three_requests) [ none ↦ new_stats | some stats ↦ stats ]

print_stats-get_stats_example :
    (lines : List Text) × (width : ℕ) × (print_stats decimal sent ≡ some lines)
    × (length lines ≡ 17)
    × All (λ l. length l ≡ width) lines
unfolding sent get_stats to_cache_statistics set_duration_stat average
print_stats-get_stats_example = print_stats-get_stats decimal three_requests sent refl

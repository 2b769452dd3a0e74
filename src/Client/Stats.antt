-- ===== src/Client/Stats.antt =====
-- src/commands.rs: the requests for statistics and for the end of the server, and `print_stats`.
use sccache.Prelude.{
  ℕ, zero, suc, Text, codes, List, [], ◌∷◌, ◌++◌, Option, none, some, if◌then◌else◌, ltb, leb,
  length, map, decimal, ◌+◌, ◌-◌,
}
use sccache.Protocol.Request.{new_request, set_zero_stats, set_get_stats, set_shutdown}
use sccache.Protocol.Statistic.{
  CacheStatistic, CacheStats, get_name, has_count, get_count, has_str, get_str, has_size, get_size,
}
use sccache.Protocol.Response.{
  ServerResponse, has_stats, take_stats, has_shutting_down, take_shutting_down, take_final_stats,
}
use sccache.Client.Wire.{Wire}
use sccache.Client.Connection.{ServerConnection, request}

-- The end of `request_zero_stats` and of `request_stats`; `none` is an error.
unfoldable pub stats_response : Option ServerResponse → Option CacheStats
unfolding has_stats take_stats
stats_response none = none
stats_response (some response) = if has_stats response then some (take_stats response).0 else none

unfoldable pub shutdown_stats : Option ServerResponse → Option CacheStats
unfolding has_shutting_down take_shutting_down take_final_stats
shutdown_stats none = none
shutdown_stats (some response) =
    if has_shutting_down response
    then some (take_final_stats (take_shutting_down response).0).0
    else none

module _ (wire : Wire) where
  unfoldable pub request_zero_stats : ServerConnection → Option CacheStats
  unfolding stats_response set_zero_stats
  request_zero_stats conn = stats_response (request wire conn (set_zero_stats new_request)).1

  unfoldable pub request_stats : ServerConnection → Option CacheStats
  unfolding stats_response set_get_stats
  request_stats conn = stats_response (request wire conn (set_get_stats new_request)).1

  unfoldable pub request_shutdown : ServerConnection → Option CacheStats
  unfolding shutdown_stats set_shutdown
  request_shutdown conn = shutdown_stats (request wire conn (set_shutdown new_request)).1

-- `str::len`: the bytes of a text in UTF-8.
abbrev pub utf8_len : Text → ℕ
utf8_len [] = 0
utf8_len (c ∷ cs) =
    (if ltb c 128 then 1 else if ltb c 2048 then 2 else if ltb c 65536 then 3 else 4) + utf8_len cs

abbrev pub spaces : ℕ → Text
spaces zero = []
spaces (suc n) = 32 ∷ spaces n

-- The largest of the numbers, if there is one.
unfoldable pub max : List ℕ → Option ℕ
max [] = none
max (n ∷ ns) = elim (max ns) [ none ↦ some n | some m ↦ some (if leb n m then m else n) ]

-- `{:<width$} {:>width$}`, which counts characters.
unfoldable pub show_line : ℕ → ℕ → Text × Text → Text
show_line name_width stat_width (name, stat) =
    name ++ spaces (name_width - length name) ++ 32 ∷ spaces (stat_width - length stat) ++ stat

-- `show_size` formats with `binary_prefix`.
module _ (show_size : ℕ → Text) where
  unfoldable pub show_value : CacheStatistic → Text
  unfolding has_count get_count decimal has_str get_str has_size get_size
  show_value s =
      if has_count s
      then decimal (get_count s)
      else if has_str s
      then get_str s
      else if has_size s
      then show_size (get_size s)
      else codes "???"

  unfoldable pub format_stat : CacheStatistic → Text × Text
  unfolding get_name show_value
  format_stat s = (get_name s, show_value s)

  unfoldable pub show_lines : Option ℕ → Option ℕ → List (Text × Text) → Option (List Text)
  unfolding show_line
  show_lines none stat_width formatted = none
  show_lines (some name_width) none formatted = none
  show_lines (some name_width) (some stat_width) formatted =
      some (map (show_line name_width stat_width) formatted)

  -- `print_stats`: the lines that it prints; `none` is a panic.
  unfoldable pub print_stats : CacheStats → Option (List Text)
  unfolding format_stat max show_lines
  print_stats stats =
      let formatted = map format_stat stats.stats in
      show_lines (max (map (λ p. utf8_len p.0) formatted)) (max (map (λ p. utf8_len p.1) formatted))
        formatted

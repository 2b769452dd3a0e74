-- ===== src/Protocol/Statistic.antt =====
-- src/protocol.rs: `CacheStatistic` and `CacheStats`.
use sccache.Prelude.{ℕ, Text, List, [], Option, none, some, Bool, true, false}

-- `CacheStatistic_oneof_value`
pub data Value : Type 0 where
  count : ℕ → Value
  str : Text → Value
  size : ℕ → Value

pub record CacheStatistic : Type 0 where
  pub name : Option Text
  pub value : Option Value

pub record CacheStats : Type 0 where
  pub stats : List CacheStatistic

abbrev pub new_statistic : CacheStatistic
new_statistic = record { name = none; value = none }

unfoldable pub set_name : CacheStatistic → Text → CacheStatistic
set_name s v = record s { name = some v }

unfoldable pub set_count : CacheStatistic → ℕ → CacheStatistic
set_count s v = record s { value = some (count v) }

unfoldable pub set_str : CacheStatistic → Text → CacheStatistic
set_str s v = record s { value = some (str v) }

unfoldable pub set_size : CacheStatistic → ℕ → CacheStatistic
set_size s v = record s { value = some (size v) }

unfoldable pub get_name : CacheStatistic → Text
get_name s = elim s.name [ none ↦ [] | some t ↦ t ]

unfoldable pub has_count : CacheStatistic → Bool
has_count s = elim s.value [ some (count n) ↦ true | _ ↦ false ]

unfoldable pub get_count : CacheStatistic → ℕ
get_count s = elim s.value [ some (count n) ↦ n | _ ↦ 0 ]

unfoldable pub has_str : CacheStatistic → Bool
has_str s = elim s.value [ some (str t) ↦ true | _ ↦ false ]

unfoldable pub get_str : CacheStatistic → Text
get_str s = elim s.value [ some (str t) ↦ t | _ ↦ [] ]

unfoldable pub has_size : CacheStatistic → Bool
has_size s = elim s.value [ some (size n) ↦ true | _ ↦ false ]

unfoldable pub get_size : CacheStatistic → ℕ
get_size s = elim s.value [ some (size n) ↦ n | _ ↦ 0 ]

abbrev pub new_stats : CacheStats
new_stats = record { stats = [] }

unfoldable pub set_stats : CacheStats → List CacheStatistic → CacheStats
set_stats s v = record s { stats = v }

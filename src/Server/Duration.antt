-- ===== src/Server/Duration.antt =====
-- What src/server.rs uses of `std::time::Duration`.
use sccache.Prelude.{
  ℕ, Text, codes, [], ◌∷◌, ◌++◌, Option, none, some, ◌+◌, ◌-◌, ◌*◌, ◌/◌, ◌%◌, ltb, if◌then◌else◌,
  ◌==◌, decimal, u64_mod,
}

-- Less than a second of nanoseconds.
pub record Duration : Type 0 where
  pub secs : ℕ
  pub nanos : ℕ

abbrev pub nanos_per_sec : ℕ
nanos_per_sec = 1000000000

abbrev pub zero_duration : Duration
zero_duration = record { secs = 0; nanos = 0 }

-- `Duration::new`, which carries whole seconds; a sum of seconds that overflows panics.
unfoldable pub new_duration : ℕ → ℕ → Option Duration
new_duration secs nanos =
    let total = secs + nanos / nanos_per_sec in
    if ltb total u64_mod
    then some (record { secs = total; nanos = nanos % nanos_per_sec })
    else none

unfoldable pub add : Duration → Duration → Option Duration
unfolding new_duration
add a b = new_duration (a.secs + b.secs) (a.nanos + b.nanos)

-- `Duration / u32`; a division by zero panics.
unfoldable pub div : Duration → ℕ → Option Duration
unfolding new_duration
div d n =
    let secs = d.secs / n in
    let carry = d.secs - secs * n in
    let extra = carry * nanos_per_sec / n in
    if n == 0 then none else new_duration secs (d.nanos / n + extra)

-- `{:03}` of a number below 1000.
abbrev pub three_digits : ℕ → Text
three_digits n = (48 + n / 100) ∷ (48 + n / 10 % 10) ∷ (48 + n % 10) ∷ []

-- `{}.{:03} s`, with the whole milliseconds.
unfoldable pub show : Duration → Text
unfolding decimal
show d = decimal d.secs ++ codes "." ++ three_digits (d.nanos / 1000000) ++ codes " s"

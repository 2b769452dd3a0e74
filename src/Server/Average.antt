-- ===== src/Server/Average.antt =====
-- When the averages of `to_cache_statistics` in src/server.rs divide by zero.
use native.Mathlib.Nat.{
  div-lt_iff_lt-mul, div-mul-le_self, div-le_self, le-div_iff_mul-le, add-mul, mod-lt, mod-add-div',
}
use sccache.Prelude.{
  ℕ, ◌+◌, ◌-◌, ◌*◌, ◌/◌, ◌%◌, ◌<◌, ◌≤◌, ◌≡◌, refl, sym, ◌∙◌, Option, none, some, arith, Bool-cases,
  inl, inr, ltb, lt→ltb, ltb→lt, ◌==◌, u64_mod, Text, ◌↔◌, ◌⊎◌, ◌>>=◌, Option-cases, true, false,
}
use sccache.Protocol.Statistic.{CacheStatistic}
use sccache.Server.Duration.{Duration, nanos_per_sec, new_duration, div}
use sccache.Server.Service.{Service, get_stats}
use sccache.Server.Stats.{average, set_duration_stat, to_cache_statistics}

-- A duration of `std`.
pub record Proper (d : Duration) : Type 0 where
  pub secs_small : d.secs < u64_mod
  pub nanos_small : d.nanos < nanos_per_sec

remainder-lt : (x n : ℕ) → 0 < n → x - x / n * n < n
remainder-lt x n h = omega (arith, mod-lt x {m = n} h, mod-add-div' x n)

sum-lt :
    (x carry n : ℕ)
    → 0 < n
    → x < nanos_per_sec
    → carry < n
    → x / n + carry * nanos_per_sec / n < nanos_per_sec
sum-lt x carry n hn hx hc =
    let y = carry * nanos_per_sec in
    let product : (x / n + y / n) * n ≤ x + y =
      omega (arith, add-mul (x / n) (y / n) n, div-mul-le_self x n, div-mul-le_self y n) in
    let below : (x + y) / n < nanos_per_sec =
      (div-lt_iff_lt-mul {k = n} {x = x + y} {y = nanos_per_sec} hn).1 (omega (arith, hx, hc)) in
    let sum : x / n + y / n ≤ (x + y) / n =
      (le-div_iff_mul-le {k = n} {x = x / n + y / n} {y = x + y} hn).1 product in
    omega (arith, below, sum)

div-total : (d : Duration) (n : ℕ) → Proper d → 0 < n → (q : Duration) × (div d n ≡ some q)
unfolding div new_duration
div-total d n p h =
    let carry = d.secs - d.secs / n * n in
    let nanos = d.nanos / n + carry * nanos_per_sec / n in
    let nanos-lt = sum-lt d.nanos carry n h p.nanos_small (remainder-lt d.secs n h) in
    let secs-lt : ltb (d.secs / n + nanos / nanos_per_sec) u64_mod ≡ true =
      lt→ltb (d.secs / n + nanos / nanos_per_sec) u64_mod
        (omega (arith, nanos-lt, div-le_self d.secs n, p.secs_small)) in
    let nonzero : (n == 0) ≡ false = ground (arith, h) in
    (
      record { secs = d.secs / n + nanos / nanos_per_sec; nanos = nanos % nanos_per_sec },
      rw (nonzero, secs-lt) refl,
    )

abbrev pub u32_mod : ℕ
u32_mod = 4294967296

no_text : {t : Text} → ◌≡◌ {A = Option Text} (some t) none → ⊥
no_text h = cc

-- The average of a duration over a count panics exactly if the count is a multiple of 2³² but not 0.
average-panics :
    (d : Duration) (n : ℕ) → Proper d → (average d n ≡ none) ↔ ((0 < n) × (n % u32_mod ≡ 0))
unfolding average
average-panics d n p = elim (Bool-cases (ltb 0 n)) [
  | inr zero_count ↦
      (λ h. absurd (no_text (rw zero_count at h)), λ h. absurd (ground (arith, zero_count, h.0)))
  | inl counted ↦ elim (Bool-cases ((n % u32_mod) == 0)) [
    | inl wrapped ↦
        (λ h. (ltb→lt 0 n counted, ground (arith, wrapped)), λ h. rw (counted, div, wrapped) refl)
    | inr kept ↦
        let (q, e) = div-total d (n % u32_mod) p (ground (arith, kept)) in
        (λ h. absurd (no_text (rw (counted, e) at h)), λ h. absurd (ground (arith, kept, h.1)))
  ]
]

-- A count that `as u32` turns into 0.
abbrev pub Wrapped : ℕ → Type 0
Wrapped n = (0 < n) × (n % u32_mod ≡ 0)

set_duration_stat-panics :
    (d : Duration) (n : ℕ) (name : Text)
    → Proper d
    → (set_duration_stat d n name ≡ none) ↔ Wrapped n
unfolding set_duration_stat
set_duration_stat-panics d n name p = elim (Option-cases (average d n)) [
  | inl panic ↦ (λ h. (average-panics d n p).0 panic, λ h. rw panic refl)
  | inr (t, q) ↦ (
    λ h. absurd (no_stat (rw q at h)),
    λ h. absurd (no_text (sym q ∙ (average-panics d n p).1 h)),
  )
]
  where
    no_stat : {t : CacheStatistic} → ◌≡◌ {A = Option CacheStatistic} (some t) none → ⊥
    no_stat h = cc

no_value : {B : Type 0} {b : B} → ◌≡◌ {A = Option B} (some b) none → ⊥
no_value h = cc

module _ {A B : Type 0} where
  one_fails : (x : Option A) (k : A → B) → ((do a ← x; some (k a)) ≡ none) ↔ (x ≡ none)
  one_fails none k = (λ h. refl, λ h. refl)
  one_fails (some a) k = (λ h. absurd (no_value h), λ h. absurd (no_value h))

  -- A chain of three fails if one of them does.
  three_fail :
      (x y z : Option A) (k : A → A → A → B)
      → ((do a ← x; b ← y; c ← z; some (k a b c)) ≡ none) ↔ ((x ≡ none) ⊎ ((y ≡ none) ⊎ (z ≡ none)))
  three_fail none y z k = (λ h. inl refl, λ h. refl)
  three_fail (some a) none z k = (λ h. inr (inl refl), λ h. refl)
  three_fail (some a) (some b) none k = (λ h. inr (inr refl), λ h. refl)
  three_fail (some a) (some b) (some c) k = (
    λ h. absurd (no_value h),
    λ h. elim h [
      | inl e ↦ absurd (no_value e)
      | inr (inl e) ↦ absurd (no_value e)
      | inr (inr e) ↦ absurd (no_value e)
    ],
  )

-- With the times that are summed in the range of `std`, the statistics can be told unless one of the
-- counts that the three averages divide by is a multiple of 2³² other than 0: then `get_stats`
-- panics.
pub get_stats-panics :
    (s : Service)
    → Proper s.stats.cache_write_duration
    → Proper s.stats.cache_read_miss_duration
    → Proper s.stats.cache_read_hit_duration
    → (get_stats s ≡ none)
      ↔ (Wrapped s.stats.cache_writes ⊎ (Wrapped s.stats.cache_misses ⊎ Wrapped s.stats.cache_hits))
unfolding get_stats to_cache_statistics
get_stats-panics s p q r =
    let x = set_duration_stat-panics s.stats.cache_write_duration s.stats.cache_writes _ p in
    let y = set_duration_stat-panics s.stats.cache_read_miss_duration s.stats.cache_misses _ q in
    let z = set_duration_stat-panics s.stats.cache_read_hit_duration s.stats.cache_hits _ r in
    let whole = one_fails (to_cache_statistics s.stats) _ in
    let parts = three_fail _ _ _ _ in
    (
      λ h. elim (parts.0 (whole.0 h)) [
        | inl e ↦ inl (x.0 e)
        | inr (inl e) ↦ inr (inl (y.0 e))
        | inr (inr e) ↦ inr (inr (z.0 e))
      ],
      λ h. whole.1 (
          parts.1 (elim h [
            | inl e ↦ inl (x.1 e)
            | inr (inl e) ↦ inr (inl (y.1 e))
            | inr (inr e) ↦ inr (inr (z.1 e))
          ])),
    )

-- ===== src/Server/Counted.antt =====
-- What `start_compile_task` of src/server.rs adds to the counters for each result.
use sccache.Prelude.{
  ℕ, ◌+◌, ◌≡◌, refl, Option, none, some, Option-cases, inl, inr, u64, ◌>>=◌, arith, subst,
}
use sccache.Compiler.CachedCompile.{
  CompileResult, error, cache_hit, cache_miss, not_cacheable, compile_failed, normal,
  forced_recache, PendingWrite, MissType,
}
use sccache.Server.Duration.{Duration, add}
use sccache.Server.Stats.{ServerStats}
use sccache.Server.Task.{count_result, count_miss, cache_write_of}

-- What a compilation's result adds to the counters.
pub record Counted (s s' : ServerStats) (write : Option PendingWrite) : Type 0 where
  pub requests_same :
      (s'.compile_requests ≡ s.compile_requests)
      × (s'.requests_executed ≡ s.requests_executed)
      × (s'.requests_unsupported_compiler ≡ s.requests_unsupported_compiler)
      × (s'.requests_not_compile ≡ s.requests_not_compile)
      × (s'.requests_not_cacheable ≡ s.requests_not_cacheable)
  pub one_more :
      u64 (s'.cache_hits + s'.cache_misses + s'.compile_fails + s'.cache_errors)
      ≡ u64 (s.cache_hits + s.cache_misses + s.compile_fails + s.cache_errors + 1)
  pub writes :
      (n m : ℕ)
      → u64 (s.cache_writes + s.cache_write_errors + s.non_cacheable_compilations + n)
        ≡ u64 (s.cache_misses + m)
      → u64 (
          s'.cache_writes
          + s'.cache_write_errors
          + s'.non_cacheable_compilations
          + elim write [ none ↦ n | some w ↦ n + 1 ])
        ≡ u64 (s'.cache_misses + m)

no_stats : {s : ServerStats} → ◌≡◌ {A = Option ServerStats} none (some s) → ⊥
no_stats h = cc

same_stats : {s t : ServerStats} → some s ≡ some t → s ≡ t
same_stats h = cc

count_miss-Counted :
    (s : ServerStats) (kind : MissType) (w : PendingWrite) (d : Duration)
    → Counted s (record (count_miss s kind) { cache_read_miss_duration = d }) (some w)
unfolding count_miss
count_miss-Counted s normal w d = record {
  requests_same = (refl, refl, refl, refl, refl);
  one_more = omega arith;
  writes = λ n m h. omega (arith, h);
}
count_miss-Counted s forced_recache w d = record {
  requests_same = (refl, refl, refl, refl, refl);
  one_more = omega arith;
  writes = λ n m h. omega (arith, h);
}

pub count_result-Counted :
    (s s' : ServerStats) (compiled : CompileResult) (time : Duration)
    → count_result s compiled time ≡ some s'
    → Counted s s' (cache_write_of compiled)
unfolding count_result cache_write_of
count_result-Counted s s' error time e =
    subst (λ x. Counted s x none) (same_stats e)
      (record {
        requests_same = (refl, refl, refl, refl, refl);
        one_more = omega arith;
        writes = λ n m h. h;
      })
count_result-Counted s s' compile_failed time e =
    subst (λ x. Counted s x none) (same_stats e)
      (record {
        requests_same = (refl, refl, refl, refl, refl);
        one_more = omega arith;
        writes = λ n m h. h;
      })
count_result-Counted s s' not_cacheable time e =
    subst (λ x. Counted s x none) (same_stats e)
      (record {
        requests_same = (refl, refl, refl, refl, refl);
        one_more = omega arith;
        writes = λ n m h. omega (arith, h);
      })
count_result-Counted s s' cache_hit time e =
    elim (Option-cases (add s.cache_read_hit_duration time)) [
      | inl panic ↦ absurd (no_stats (rw (panic, ◌>>=◌) at e))
      | inr (d, q) ↦
          subst (λ x. Counted s x none) (same_stats (rw (q, ◌>>=◌) at e))
            (record {
              requests_same = (refl, refl, refl, refl, refl);
              one_more = omega arith;
              writes = λ n m h. h;
            })
    ]
count_result-Counted s s' (cache_miss kind w) time e =
    elim (Option-cases (add s.cache_read_miss_duration time)) [
      | inl panic ↦ absurd (no_stats (rw (panic, ◌>>=◌) at e))
      | inr (d, q) ↦
          subst (λ x. Counted s x (some w)) (same_stats (rw (q, ◌>>=◌) at e))
            (count_miss-Counted s kind w d)
    ]

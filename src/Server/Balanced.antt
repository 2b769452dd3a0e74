-- ===== src/Server/Balanced.antt =====
-- The counters of src/server.rs and what is under way, in each operation of the server.
use sccache.Prelude.{
  ℕ, suc, ◌+◌, Text, List, ◌≡◌, refl, Option, none, some, Option-cases, inl, inr, u64, ◌>>=◌, arith,
  subst,
}
use sccache.Compiler.{CompilerArguments, ok, cannot_cache, not_compilation}
use sccache.Compiler.CachedCompile.{Output, CompileResult, PendingWrite}
use sccache.Kinds.Info.{Compiler}
use sccache.Protocol.Request as Request
use sccache.Protocol.Request.{
  ClientRequest, has_compile, has_get_stats, has_zero_stats, has_shutdown,
}
use sccache.Server.Duration.{Duration, add}
use sccache.Server.Stats.{ServerStats}
use sccache.Server.Service.{call, check_compiler, check_arguments, zero_stats}
use sccache.Server.Task.{end_task, end_write, count_result, cache_write_of}
use sccache.Server.World.{World, after_call, after_check, after_task}
use sccache.Server.Counted.{Counted, count_result-Counted}

-- Since the statistics were zeroed, up to the words of the counters: every compile request was
-- counted as executed or as one of the three that are not, or waits, or was given up; every compilation was counted
-- as a hit, a miss, a failure or an error, or runs; every miss was counted as written, as failed to
-- be written or as not cacheable, or is being written, or its write was dropped.
pub record Balanced (w : World) : Type 0 where
  pub requests :
      u64 (
        w.service.stats.requests_executed + w.service.stats.requests_unsupported_compiler
        + w.service.stats.requests_not_compile + w.service.stats.requests_not_cacheable + w.waiting
        + w.abandoned)
      ≡ u64 (w.service.stats.compile_requests + w.waiting_before)
  pub compilations :
      u64 (
        w.service.stats.cache_hits + w.service.stats.cache_misses + w.service.stats.compile_fails
        + w.service.stats.cache_errors + w.running)
      ≡ u64 (w.service.stats.requests_executed + w.running_before)
  pub writes :
      u64 (
        w.service.stats.cache_writes + w.service.stats.cache_write_errors
        + w.service.stats.non_cacheable_compilations + w.writing + w.dropped)
      ≡ u64 (w.service.stats.cache_misses + w.writing_before)

pub after_call-Balanced :
    (w : World) (o : Option Request.Oneof)
    → Balanced w
    → Balanced (after_call w (call w.service (record { request = o })).service o)
unfolding after_call call has_compile has_get_stats has_zero_stats has_shutdown zero_stats
after_call-Balanced w (some (Request.compile c)) b = record {
  requests = omega (arith, b.requests);
  compilations = b.compilations;
  writes = b.writes;
}
after_call-Balanced w (some Request.zero_stats) b = record {
  requests = omega arith;
  compilations = refl;
  writes = omega arith;
}
after_call-Balanced w (some Request.get_stats) b = b
after_call-Balanced w (some Request.shutdown) b = b
after_call-Balanced w none b = b

check_arguments-Balanced :
    (w : World) (n : ℕ) (c : Compiler) (parsed : CompilerArguments)
    → Balanced w
    → w.waiting ≡ suc n
    → Balanced (after_check w n (check_arguments w.service c parsed))
unfolding after_check check_arguments
check_arguments-Balanced w n c (ok args) b h = record {
  requests = omega (arith, b.requests, h);
  compilations = omega (arith, b.compilations);
  writes = b.writes;
}
check_arguments-Balanced w n c cannot_cache b h = record {
  requests = omega (arith, b.requests, h);
  compilations = b.compilations;
  writes = b.writes;
}
check_arguments-Balanced w n c not_compilation b h = record {
  requests = omega (arith, b.requests, h);
  compilations = b.compilations;
  writes = b.writes;
}

pub no_world : {w : World} → ◌≡◌ {A = Option World} none (some w) → ⊥
no_world h = cc

pub same_world : {v w : World} → some v ≡ some w → v ≡ w
same_world h = cc

pub check_compiler-Balanced :
    (parse : Compiler → List Text → Text → Option CompilerArguments) (w w' : World) (n : ℕ)
    (info : Option Compiler) (cmd : List Text) (cwd : Text)
    → Balanced w
    → w.waiting ≡ suc n
    → (do result ← check_compiler parse w.service info cmd cwd; some (after_check w n result))
      ≡ some w'
    → Balanced w'
unfolding check_compiler after_check
check_compiler-Balanced parse w w' n none cmd cwd b h e = subst Balanced (same_world e) (record {
  requests = omega (arith, b.requests, h);
  compilations = b.compilations;
  writes = b.writes;
})
check_compiler-Balanced parse w w' n (some c) cmd cwd b h e =
    elim (Option-cases (parse c cmd cwd)) [
      | inl endless ↦ absurd (no_world (rw (endless, ◌>>=◌) at e))
      | inr (parsed, q) ↦
          subst Balanced (same_world (rw (q, ◌>>=◌) at e))
            (check_arguments-Balanced w n c parsed b h)
    ]

Counted-Balanced :
    (w : World) (s : ServerStats) (n : ℕ) (write : Option PendingWrite)
    → Balanced w
    → w.running ≡ suc n
    → Counted w.service.stats s write
    → Balanced (after_task w n (record (w.service) { stats = s }) write)
unfolding after_task
Counted-Balanced w s n none b h c =
    let (a1, a2, a3, a4, a5) = c.requests_same in
    record {
      requests = omega (arith, b.requests, a1, a2, a3, a4, a5);
      compilations = omega (arith, b.compilations, h, a2, c.one_more);
      writes =
          omega
            (arith, c.writes (w.writing + w.dropped) w.writing_before (omega (arith, b.writes)));
    }
Counted-Balanced w s n (some write) b h c =
    let (a1, a2, a3, a4, a5) = c.requests_same in
    record {
      requests = omega (arith, b.requests, a1, a2, a3, a4, a5);
      compilations = omega (arith, b.compilations, h, a2, c.one_more);
      writes =
          omega
            (arith, c.writes (w.writing + w.dropped) w.writing_before (omega (arith, b.writes)));
    }

pub end_task-Balanced :
    (w w' : World) (n : ℕ) (result : Option (CompileResult × Output)) (time : Duration)
    → Balanced w
    → w.running ≡ suc n
    → (do
      ended ← end_task w.service result time
      some (after_task w n ended.service ended.cache_write))
      ≡ some w'
    → Balanced w'
unfolding end_task after_task
end_task-Balanced w w' n none time b h e = subst Balanced (same_world e) (record {
  requests = b.requests;
  compilations = omega (arith, b.compilations, h);
  writes = b.writes;
})
end_task-Balanced w w' n (some (compiled, out)) time b h e =
    elim (Option-cases (count_result w.service.stats compiled time)) [
      | inl panic ↦ absurd (no_world (rw (panic, ◌>>=◌) at e))
      | inr (s, q) ↦ subst Balanced (same_world (rw (q, ◌>>=◌) at e)) (
          Counted-Balanced w s n (cache_write_of compiled) b h
            (count_result-Counted w.service.stats s compiled time q))
    ]

pub end_write-Balanced :
    (w w' : World) (n : ℕ) (outcome : Option Duration)
    → Balanced w
    → w.writing ≡ suc n
    → (do s ← end_write w.service outcome; some (record w { service = s; writing = n })) ≡ some w'
    → Balanced w'
unfolding end_write
end_write-Balanced w w' n none b h e = subst Balanced (same_world e) (record {
  requests = b.requests;
  compilations = b.compilations;
  writes = omega (arith, b.writes, h);
})
end_write-Balanced w w' n (some time) b h e =
    elim (Option-cases (add w.service.stats.cache_write_duration time)) [
      | inl panic ↦ absurd (no_world (rw (panic, ◌>>=◌) at e))
      | inr (d, q) ↦ subst Balanced (same_world (rw (q, ◌>>=◌) at e)) (record {
        requests = b.requests;
        compilations = b.compilations;
        writes = omega (arith, b.writes, h);
      })
    ]

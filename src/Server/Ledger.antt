-- ===== src/Server/Ledger.antt =====
-- The counters of src/server.rs against the requests, compilations and cache writes that are under
-- way, whatever the order in which they begin and end.
use sccache.Prelude.{
  count_cases, Text, List, [], ◌∷◌, ◌≡◌, refl, Option, some, arith, Option-cases, inl, inr, ◌>>=◌,
  Bool, subst,
}
use sccache.Compiler.{CompilerArguments}
use sccache.Kinds.Info.{Compiler}
use sccache.Server.Service.{
  Service, StorageInfo, call, remember_compiler, check_compiler, check_arguments, Checked,
  unhandled, started, zero_stats,
}
use sccache.Server.Service
use sccache.Server.World.{
  World, Event, requested, remembered, checked, finished, wrote, abandons, drops_write, start, step,
  run,
}
use sccache.Server.Balanced.{
  Balanced, after_call-Balanced, no_world, same_world, check_compiler-Balanced, end_task-Balanced,
  end_write-Balanced,
}

module _ (parse : Compiler → List Text → Text → Option CompilerArguments) where
  step-Balanced : (w w' : World) (e : Event) → Balanced w → step parse w e ≡ some w' → Balanced w'
  unfolding step remember_compiler
  step-Balanced w w' (requested r) b h =
      subst Balanced (same_world h) (after_call-Balanced w r.request b)
  step-Balanced w w' (remembered path info) b h = subst Balanced (same_world h) b'
    where
      b' : Balanced (record w { service = remember_compiler w.service path info })
      b' = record { requests = b.requests; compilations = b.compilations; writes = b.writes }
  step-Balanced w w' (checked info cmd cwd) b h = elim (count_cases w.waiting) [
    | inl z ↦ absurd (no_world (rw z at h))
    | inr (n, q) ↦ check_compiler-Balanced parse w w' n info cmd cwd b q (rw q at h)
  ]
  step-Balanced w w' (finished result time) b h = elim (count_cases w.running) [
    | inl z ↦ absurd (no_world (rw z at h))
    | inr (n, q) ↦ end_task-Balanced w w' n result time b q (rw q at h)
  ]
  step-Balanced w w' (wrote outcome) b h = elim (count_cases w.writing) [
    | inl z ↦ absurd (no_world (rw z at h))
    | inr (n, q) ↦ end_write-Balanced w w' n outcome b q (rw q at h)
  ]
  step-Balanced w w' abandons b h = elim (count_cases w.waiting) [
    | inl z ↦ absurd (no_world (rw z at h))
    | inr (n, q) ↦ subst Balanced (same_world (rw q at h)) (record {
      requests = omega (arith, b.requests, q);
      compilations = b.compilations;
      writes = b.writes;
    })
  ]
  step-Balanced w w' drops_write b h = elim (count_cases w.writing) [
    | inl z ↦ absurd (no_world (rw z at h))
    | inr (n, q) ↦ subst Balanced (same_world (rw q at h)) (record {
      requests = b.requests;
      compilations = b.compilations;
      writes = omega (arith, b.writes, q);
    })
  ]

  run_from-Balanced :
      (es : List Event) (w w' : World) → Balanced w → run parse w es ≡ some w' → Balanced w'
  unfolding run
  run_from-Balanced [] w w' b h = subst Balanced (same_world h) b
  run_from-Balanced (e ∷ es) w w' b h = elim (Option-cases (step parse w e)) [
    | inl stuck ↦ absurd (no_world (rw (stuck, run, ◌>>=◌) at h))
    | inr (v, q) ↦ run_from-Balanced es v w' (step-Balanced w v e b q) (rw (q, run, ◌>>=◌) at h)
  ]

  -- However requests, compilations and cache writes are interleaved, and whenever the statistics are
  -- zeroed, the counters of a server agree with what is under way: every compile request since the
  -- last reset was executed, was one of the three kinds that are not, still waits, or was given up
  -- with its connection; every compilation ended as a hit, a miss, a failure or an error, or still
  -- runs; and every miss was written, failed to be written, was not cacheable, is still being
  -- written, or had its write dropped because the response could not be sent. What was under way at
  -- the reset counts too, and sums are taken as the counters' words are.
  pub run-Balanced :
      (storage : StorageInfo) (recache : Bool) (es : List Event) (w : World)
      → run parse (start storage recache) es ≡ some w
      → Balanced w
  unfolding start Service.new
  run-Balanced storage recache es w h =
      run_from-Balanced es (start storage recache) w
        (record { requests = refl; compilations = refl; writes = refl }) h

-- ===== src/Server/Compilers.antt =====
-- The operations of src/server.rs that leave `compilers` as they are.
use sccache.Prelude.{
  ℕ, Text, List, ◌≡◌, refl, sym, ap, ◌∙◌, Option, none, some, Option-cases, inl, inr, ◌>>=◌,
}
use sccache.Compiler.{CompilerArguments, ok, cannot_cache, not_compilation}
use sccache.Compiler.CachedCompile.{Output, CompileResult}
use sccache.Kinds.Info.{Compiler}
use sccache.Protocol.Request as Request
use sccache.Protocol.Request.{
  ClientRequest, has_compile, has_get_stats, has_zero_stats, has_shutdown, take_exe, take_command,
  take_cwd,
}
use sccache.Server.Duration.{Duration, add}
use sccache.Server.Service.{Service, call, check_compiler, check_arguments, zero_stats}
use sccache.Server.Task.{end_task, end_write, count_result}
use sccache.Server.World.{World, after_call, after_check, after_task}
use sccache.Server.Balanced.{no_world, same_world}

abbrev Compilers : Type 0
Compilers = List (Text × Option Compiler)

pub after_call-compilers :
    (w : World) (o : Option Request.Oneof)
    → (after_call w (call w.service (record { request = o })).service o).service.compilers
      ≡ w.service.compilers
unfolding after_call call has_compile has_get_stats has_zero_stats has_shutdown zero_stats
after_call-compilers w (some (Request.compile c)) = refl
after_call-compilers w (some Request.zero_stats) = refl
after_call-compilers w (some Request.get_stats) = refl
after_call-compilers w (some Request.shutdown) = refl
after_call-compilers w none = refl

after_check-compilers :
    (w : World) (n : ℕ) (c : Compiler) (parsed : CompilerArguments)
    → (after_check w n (check_arguments w.service c parsed)).service.compilers ≡ w.service.compilers
unfolding after_check check_arguments
after_check-compilers w n c (ok args) = refl
after_check-compilers w n c cannot_cache = refl
after_check-compilers w n c not_compilation = refl

abbrev compilers : World → Compilers
compilers w = w.service.compilers

pub check_compiler-compilers :
    (parse : Compiler → List Text → Text → Option CompilerArguments) (w w' : World) (n : ℕ)
    (info : Option Compiler) (cmd : List Text) (cwd : Text)
    → (do result ← check_compiler parse w.service info cmd cwd; some (after_check w n result))
      ≡ some w'
    → w'.service.compilers ≡ w.service.compilers
unfolding check_compiler after_check
check_compiler-compilers parse w w' n none cmd cwd e = ap compilers (sym (same_world e))
check_compiler-compilers parse w w' n (some c) cmd cwd e = elim (Option-cases (parse c cmd cwd)) [
  | inl endless ↦ absurd (no_world (rw (endless, ◌>>=◌) at e))
  | inr (parsed, q) ↦
      ap compilers (sym (same_world (rw (q, ◌>>=◌) at e))) ∙ after_check-compilers w n c parsed
]

after_task-compilers :
    (w : World) (n : ℕ) (s : Service) (write : Option _)
    → s.compilers ≡ w.service.compilers
    → (after_task w n s write).service.compilers ≡ w.service.compilers
unfolding after_task
after_task-compilers w n s none h = h
after_task-compilers w n s (some x) h = h

pub end_task-compilers :
    (w w' : World) (n : ℕ) (result : Option (CompileResult × Output)) (time : Duration)
    → (do
      ended ← end_task w.service result time
      some (after_task w n ended.service ended.cache_write))
      ≡ some w'
    → w'.service.compilers ≡ w.service.compilers
unfolding end_task after_task
end_task-compilers w w' n none time e = ap compilers (sym (same_world e))
end_task-compilers w w' n (some (compiled, out)) time e =
    elim (Option-cases (count_result w.service.stats compiled time)) [
      | inl panic ↦ absurd (no_world (rw (panic, ◌>>=◌) at e))
      | inr (s, q) ↦
          ap compilers (sym (same_world (rw (q, ◌>>=◌) at e)))
          ∙ after_task-compilers w n (record (w.service) { stats = s }) _ refl
    ]

pub end_write-compilers :
    (w w' : World) (n : ℕ) (outcome : Option Duration)
    → (do s ← end_write w.service outcome; some (record w { service = s; writing = n })) ≡ some w'
    → w'.service.compilers ≡ w.service.compilers
unfolding end_write
end_write-compilers w w' n none e = ap compilers (sym (same_world e))
end_write-compilers w w' n (some time) e =
    elim (Option-cases (add w.service.stats.cache_write_duration time)) [
      | inl panic ↦ absurd (no_world (rw (panic, ◌>>=◌) at e))
      | inr (d, q) ↦ ap compilers (sym (same_world (rw (q, ◌>>=◌) at e)))
    ]

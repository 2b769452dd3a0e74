-- ===== src/Server/Unsupported.antt =====
-- What src/server.rs remembers of a path at which no compiler was found, whatever happens later.
use sccache.Prelude.{
  text_eq_iff, count_cases, Text, text_eq, text_eq_refl, List, [], ◌∷◌, ◌≡◌, ◌≢◌, refl, sym, ap,
  ◌∙◌, subst, Option, none, some, Option-cases, inl, inr, Bool-cases, ◌>>=◌, u64, ◌+◌, All,
}
use sccache.Fs.{Fs, File, metadata}
use sccache.Lru.{find, erase}
use sccache.Compiler.{CompilerArguments}
use sccache.Kinds.Info.{Compiler}
use sccache.Protocol.Request as Request
use sccache.Protocol.Request.{
  ClientRequest, has_compile, has_get_stats, has_zero_stats, has_shutdown, take_exe, take_command,
  take_cwd,
}
use sccache.Protocol.Response.{new_response, set_unhandled_compile}
use sccache.Server.Service.{
  Service, compiler_info, known_compiler, remember_compiler, check_compiler, handle_compile, checks,
  unhandled,
}
use sccache.Server.World.{
  World, Event, requested, remembered, checked, finished, wrote, abandons, drops_write, step, run,
}
use sccache.Server.Balanced.{no_world, same_world}
use sccache.Server.Compilers.{
  after_call-compilers, check_compiler-compilers, end_task-compilers, end_write-compilers,
}

-- No answer about the path comes in.
abbrev pub NotAbout : Text → Event → Type 0
NotAbout path (remembered p info) = p ≢ path
NotAbout path (requested r) = Unit
NotAbout path (checked info cmd cwd) = Unit
NotAbout path (finished result time) = Unit
NotAbout path (wrote outcome) = Unit
NotAbout path abandons = Unit
NotAbout path drops_write = Unit

-- What is known of a path is not touched by an answer about another.
find-erase :
    {V : Type 0} (path p : Text) (es : List (Text × V))
    → p ≢ path
    → find path (erase p es) ≡ find path es
unfolding find erase
find-erase path p [] h = refl
find-erase path p ((j, v) ∷ es) h = elim (Bool-cases (text_eq j p)) [
  | inl e ↦ elim (Bool-cases (text_eq j path)) [
    | inl q ↦ absurd (h (sym ((text_eq_iff j p).0 e) ∙ (text_eq_iff j path).0 q))
    | inr q ↦ rw (e, q) refl
  ]
  | inr e ↦ elim (Bool-cases (text_eq j path)) [
    | inl q ↦ rw (e, q) refl
    | inr q ↦ rw (e, q) (find-erase path p es h)
  ]
]

remember_compiler-find :
    (s : Service) (path p : Text) (info : Option Compiler)
    → p ≢ path
    → find path (remember_compiler s p info).compilers ≡ find path s.compilers
unfolding remember_compiler find
remember_compiler-find s path p info h = elim (Bool-cases (text_eq p path)) [
  | inl q ↦ absurd (h ((text_eq_iff p path).0 q))
  | inr q ↦ rw q (find-erase path p s.compilers h)
]

compiler_info-none :
    (s : Service) (fs : Fs) (path : Text) (now : File)
    → find path s.compilers ≡ some none
    → metadata fs path ≡ some now
    → compiler_info s fs path ≡ some none
unfolding compiler_info known_compiler
compiler_info-none s fs path now h there = rw (there, h, compiler_info) refl

module _ (parse : Compiler → List Text → Text → Option CompilerArguments) (path : Text) where
  -- What is known of the path.
  abbrev known : World → Option (Option Compiler)
  known w = find path w.service.compilers

  step-known :
      (w w' : World) (e : Event) → NotAbout path e → step parse w e ≡ some w' → known w' ≡ known w
  unfolding step
  step-known w w' (requested r) other h =
      ap known (sym (same_world h)) ∙ ap (find path) (after_call-compilers w r.request)
  step-known w w' (remembered p info) other h =
      ap known (sym (same_world h)) ∙ remember_compiler-find w.service path p info other
  step-known w w' (checked info cmd cwd) other h = elim (count_cases w.waiting) [
    | inl z ↦ absurd (no_world (rw z at h))
    | inr (n, q) ↦ ap (find path) (check_compiler-compilers parse w w' n info cmd cwd (rw q at h))
  ]
  step-known w w' (finished result time) other h = elim (count_cases w.running) [
    | inl z ↦ absurd (no_world (rw z at h))
    | inr (n, q) ↦ ap (find path) (end_task-compilers w w' n result time (rw q at h))
  ]
  step-known w w' (wrote outcome) other h = elim (count_cases w.writing) [
    | inl z ↦ absurd (no_world (rw z at h))
    | inr (n, q) ↦ ap (find path) (end_write-compilers w w' n outcome (rw q at h))
  ]
  step-known w w' abandons other h = elim (count_cases w.waiting) [
    | inl z ↦ absurd (no_world (rw z at h))
    | inr (n, q) ↦ ap known (sym (same_world (rw q at h)))
  ]
  step-known w w' drops_write other h = elim (count_cases w.writing) [
    | inl z ↦ absurd (no_world (rw z at h))
    | inr (n, q) ↦ ap known (sym (same_world (rw q at h)))
  ]

  run-known :
      (es : List Event) (w w' : World)
      → All (NotAbout path) es
      → run parse w es ≡ some w'
      → known w' ≡ known w
  unfolding run
  run-known [] w w' other h = ap known (sym (same_world h))
  run-known (e ∷ es) w w' other h = elim (Option-cases (step parse w e)) [
    | inl stuck ↦ absurd (no_world (rw (stuck, run, ◌>>=◌) at h))
    | inr (v, q) ↦ run-known es v w' other.1 (rw (q, run, ◌>>=◌) at h) ∙ step-known w v e other.0 q
  ]

  remembered_none :
      (es : List Event) (w w' : World)
      → All (NotAbout path) es
      → run parse w (remembered path none ∷ es) ≡ some w'
      → known w' ≡ some none
  unfolding run step remember_compiler find
  remembered_none es w w' other h =
      run-known es (record w { service = remember_compiler w.service path none }) w' other h
      ∙ rw (text_eq_refl path) refl

  -- Once no compiler was found at a path, that stays the answer through any requests, compilations
  -- and cache writes, until another answer about that path comes in: a compile request for it, at
  -- a time when the file's metadata can be read, does not lead to a new look at the file, whatever
  -- file that is; it is answered `UnhandledCompile` and counted as an unsupported compiler.
  pub handle_compile-unsupported :
      (es : List Event) (w w' : World) (fs : Fs) (compile : Request.Compile) (now : File)
      → All (NotAbout path) es
      → run parse w (remembered path none ∷ es) ≡ some w'
      → (take_exe compile).0 ≡ path
      → metadata fs path ≡ some now
      → handle_compile parse w'.service fs compile
        ≡ some (
            checks
              (record (w'.service) {
                stats = record (w'.service.stats) {
                  requests_unsupported_compiler =
                      u64 (w'.service.stats.requests_unsupported_compiler + 1);
                };
              })
              (unhandled (set_unhandled_compile new_response)))
  unfolding handle_compile check_compiler
  handle_compile-unsupported es w w' fs compile now other h exe there =
      let answer : compiler_info w'.service fs (take_exe compile).0 ≡ some none =
        subst (λ x. compiler_info w'.service fs x ≡ some none) (sym exe)
          (compiler_info-none w'.service fs path now (remembered_none es w w' other h) there) in
      rw (answer, handle_compile, ◌>>=◌) refl

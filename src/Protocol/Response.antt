-- ===== src/Protocol/Response.antt =====
-- src/protocol.rs: `ServerResponse` and its messages. A `take_` returns what it takes, and the
-- message that is left.
use sccache.Prelude.{ℤ, pos, Text, [], Option, none, some, Bool, true, false}
use sccache.Protocol.Statistic.{CacheStats, new_stats}

-- `CompileFinished_oneof_exit_status`
pub data ExitStatus : Type 0 where
  retcode : ℤ → ExitStatus
  signal : ℤ → ExitStatus

pub record CompileFinished : Type 0 where
  pub stdout : Option Text
  pub stderr : Option Text
  pub exit_status : Option ExitStatus

abbrev pub new_finished : CompileFinished
new_finished = record { stdout = none; stderr = none; exit_status = none }

unfoldable pub set_retcode : CompileFinished → ℤ → CompileFinished
set_retcode f v = record f { exit_status = some (retcode v) }

unfoldable pub set_stdout : CompileFinished → Text → CompileFinished
set_stdout f v = record f { stdout = some v }

unfoldable pub set_stderr : CompileFinished → Text → CompileFinished
set_stderr f v = record f { stderr = some v }

unfoldable pub has_retcode : CompileFinished → Bool
has_retcode f = elim f.exit_status [ some (retcode n) ↦ true | _ ↦ false ]

unfoldable pub get_retcode : CompileFinished → ℤ
get_retcode f = elim f.exit_status [ some (retcode n) ↦ n | _ ↦ pos 0 ]

unfoldable pub has_signal : CompileFinished → Bool
has_signal f = elim f.exit_status [ some (signal n) ↦ true | _ ↦ false ]

unfoldable pub get_signal : CompileFinished → ℤ
get_signal f = elim f.exit_status [ some (signal n) ↦ n | _ ↦ pos 0 ]

-- `has_stdout` and `has_stderr`
unfoldable pub has_stdout : CompileFinished → Bool
has_stdout f = elim f.stdout [ none ↦ false | some t ↦ true ]

unfoldable pub has_stderr : CompileFinished → Bool
has_stderr f = elim f.stderr [ none ↦ false | some t ↦ true ]

unfoldable pub get_stdout : CompileFinished → Text
get_stdout f = elim f.stdout [ none ↦ [] | some t ↦ t ]

unfoldable pub get_stderr : CompileFinished → Text
get_stderr f = elim f.stderr [ none ↦ [] | some t ↦ t ]

pub record ShuttingDown : Type 0 where
  pub stats : Option CacheStats

abbrev pub new_shutting_down : ShuttingDown
new_shutting_down = record { stats = none }

unfoldable pub set_final_stats : ShuttingDown → CacheStats → ShuttingDown
set_final_stats s v = record s { stats = some v }

unfoldable pub take_final_stats : ShuttingDown → CacheStats × ShuttingDown
take_final_stats s = (elim s.stats [ none ↦ new_stats | some v ↦ v ], record s { stats = none })

-- `ServerResponse_oneof_response`; `CompileStarted`, `UnhandledCompile` and `UnknownCommand` have
-- no field.
pub data Oneof : Type 0 where
  stats : CacheStats → Oneof
  shutting_down : ShuttingDown → Oneof
  compile_started : Oneof
  compile_finished : CompileFinished → Oneof
  unhandled_compile : Oneof
  unknown : Oneof

pub record ServerResponse : Type 0 where
  pub response : Option Oneof

abbrev pub new_response : ServerResponse
new_response = record { response = none }

unfoldable pub set_stats : ServerResponse → CacheStats → ServerResponse
set_stats r v = record r { response = some (stats v) }

unfoldable pub set_shutting_down : ServerResponse → ShuttingDown → ServerResponse
set_shutting_down r v = record r { response = some (shutting_down v) }

unfoldable pub set_compile_started : ServerResponse → ServerResponse
set_compile_started r = record r { response = some compile_started }

unfoldable pub set_compile_finished : ServerResponse → CompileFinished → ServerResponse
set_compile_finished r v = record r { response = some (compile_finished v) }

unfoldable pub set_unhandled_compile : ServerResponse → ServerResponse
set_unhandled_compile r = record r { response = some unhandled_compile }

unfoldable pub set_unknown : ServerResponse → ServerResponse
set_unknown r = record r { response = some unknown }

unfoldable pub has_stats : ServerResponse → Bool
has_stats r = elim r.response [ some (stats s) ↦ true | _ ↦ false ]

unfoldable pub has_shutting_down : ServerResponse → Bool
has_shutting_down r = elim r.response [ some (shutting_down s) ↦ true | _ ↦ false ]

unfoldable pub has_compile_started : ServerResponse → Bool
has_compile_started r = elim r.response [ some compile_started ↦ true | _ ↦ false ]

unfoldable pub has_compile_finished : ServerResponse → Bool
has_compile_finished r = elim r.response [ some (compile_finished f) ↦ true | _ ↦ false ]

unfoldable pub has_unhandled_compile : ServerResponse → Bool
has_unhandled_compile r = elim r.response [ some unhandled_compile ↦ true | _ ↦ false ]

unfoldable pub take_stats : ServerResponse → CacheStats × ServerResponse
take_stats r = elim r.response [
  | some (stats s) ↦ (s, record r { response = none })
  | _ ↦ (new_stats, r)
]

unfoldable pub take_shutting_down : ServerResponse → ShuttingDown × ServerResponse
take_shutting_down r = elim r.response [
  | some (shutting_down s) ↦ (s, record r { response = none })
  | _ ↦ (new_shutting_down, r)
]

unfoldable pub take_compile_finished : ServerResponse → CompileFinished × ServerResponse
take_compile_finished r = elim r.response [
  | some (compile_finished f) ↦ (f, record r { response = none })
  | _ ↦ (new_finished, r)
]

-- ===== src/Client/Output.antt =====
-- src/commands.rs: `handle_compile_finished`, and the end of `handle_compile_response` for a
-- compilation that is run locally.
use sccache.Prelude.{
  ℕ, ℤ, pos, negsuc, List, [], ◌∷◌, ◌++◌, ◌-◌, Option, none, some, Bool, true, false, if◌then◌else◌,
  length, leb, is_nonempty,
}
use sccache.Protocol.Response.{
  CompileFinished, has_stdout, has_stderr, get_stdout, get_stderr, has_retcode, get_retcode,
  has_signal, get_signal,
}
use sccache.Client.Wire.{Bytes}
use sccache.Client.Connection.{take}

-- A stream that takes only so many more bytes.
pub record Writer : Type 0 where
  pub written : Bytes
  pub room : ℕ

-- `write_all`: whether all was written.
unfoldable pub write_all : Writer → Bytes → Writer × Bool
write_all w bytes =
    if leb (length bytes) w.room
    then (record { written = w.written ++ bytes; room = w.room - length bytes }, true)
    else (record { written = w.written ++ take w.room bytes; room = 0 }, false)

-- What the client prints besides.
pub data Note : Type 0 where
  killed_by_signal : ℤ → Note
  missing_exit_status : Note
  terminated_by_signal : ℤ → Note

pub record Screen : Type 0 where
  pub stdout : Writer
  pub stderr : Writer
  pub notes : List Note

abbrev note : Screen → Note → Screen
note s n = record s { notes = s.notes ++ n ∷ [] }

-- Both streams, each if the condition holds; `false` if a write fails.
unfoldable pub write_stderr : Screen → Bool → Bytes → Screen × Bool
unfolding write_all
write_stderr s given bytes =
    let (w, done) = write_all s.stderr bytes in
    if given then (record s { stderr = w }, done) else (s, true)

unfoldable pub write_stdout : Screen → Bool → Bytes → Screen × Bool
unfolding write_all
write_stdout s given bytes =
    let (w, done) = write_all s.stdout bytes in
    if given then (record s { stdout = w }, done) else (s, true)

unfoldable pub write_streams : Screen → Bool → Bytes → Bool → Bytes → Screen × Bool
unfolding write_stdout write_stderr
write_streams s has_out out has_err err =
    let (s1, done) = write_stdout s has_out out in
    if done then write_stderr s1 has_err err else (s1, false)

unfoldable pub finished_status : CompileFinished → Screen → Screen × Option ℤ
unfolding has_retcode get_retcode has_signal get_signal
finished_status response s =
    if has_retcode response
    then (s, some (get_retcode response))
    else if has_signal response
    then (note s (killed_by_signal (get_signal response)), some (negsuc 1))
    else (note s missing_exit_status, some (negsuc 2))

-- `handle_compile_finished`; `none` is an error.
unfoldable pub handle_compile_finished : CompileFinished → Screen → Screen × Option ℤ
unfolding write_streams has_stdout get_stdout has_stderr get_stderr finished_status
handle_compile_finished response s =
    let (s1, done) =
      write_streams s (has_stdout response) (get_stdout response) (has_stderr response)
        (get_stderr response) in
    if done then finished_status response s1 else (s1, none)

-- `process::Output` of a local run, with `code()` and `signal()` of its status.
pub record LocalOutput : Type 0 where
  pub code : Option ℤ
  pub signal : Option ℤ
  pub stdout : Bytes
  pub stderr : Bytes

unfoldable pub local_status : LocalOutput → Screen → Screen × Option ℤ
local_status out s = elim out.code [
  | some n ↦ (s, some n)
  | none ↦ elim out.signal [
    | some sig ↦ (note s (terminated_by_signal sig), some (pos 2))
    | none ↦ (s, some (pos 2))
  ]
]

-- The end of the branch `UnhandledCompile`.
unfoldable pub handle_local : Option LocalOutput → Screen → Screen × Option ℤ
unfolding write_streams local_status
handle_local none s = (s, none)
handle_local (some out) s =
    let (s1, done) =
      write_streams s (is_nonempty out.stdout) out.stdout (is_nonempty out.stderr) out.stderr in
    if done then local_status out s1 else (s1, none)

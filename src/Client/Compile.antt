-- ===== src/Client/Compile.antt =====
-- src/commands.rs: `request_compile`, `handle_compile_response` and `do_compile`.
use sccache.Prelude.{ℤ, Text, List, [], ◌∷◌, Option, none, some, if◌then◌else◌, is_nonempty}
use sccache.Protocol.Request.{
  ClientRequest, new_compile, new_request, set_exe, set_cwd, set_command, set_compile,
}
use sccache.Protocol.Response.{
  ServerResponse, has_compile_started, has_unhandled_compile, has_compile_finished,
  take_compile_finished,
}
use sccache.Client.Wire.{Wire}
use sccache.Client.Connection.{ServerConnection, request, read_one_response}
use sccache.Client.Output.{Screen, LocalOutput, handle_compile_finished, handle_local}

pub data CompileResponse : Type 0 where
  compile_started : CompileResponse
  unhandled_compile : CompileResponse

-- The arguments that are UTF-8.
unfoldable pub filter_map : (Text → Option Text) → List Text → List Text
filter_map f [] = []
filter_map f (x ∷ xs) = elim (f x) [ none ↦ filter_map f xs | some y ↦ y ∷ filter_map f xs ]

unfoldable pub compile_request : Text → Text → List Text → ClientRequest
unfolding set_exe set_cwd set_command set_compile
compile_request exe cwd args =
    set_compile new_request (set_command (set_cwd (set_exe new_compile exe) cwd) args)

unfoldable pub compile_response : Option ServerResponse → Option CompileResponse
unfolding has_compile_started has_unhandled_compile
compile_response none = none
compile_response (some response) =
    if has_compile_started response
    then some compile_started
    else if has_unhandled_compile response
    then some unhandled_compile
    else none

-- The result is the exit code, or `none` for an error. `to_str` is that of an `OsStr`, `run` runs a
-- command in a directory as `run_input_output` does, and `which_in` finds a program.
module _ (wire : Wire) (to_str : Text → Option Text)
    (run : Text → List Text → Text → Option LocalOutput)
    (which_in : Text → Text → Option Text) where
  unfoldable pub send_compile :
      ServerConnection → Text → List Text → Text → ServerConnection × Option CompileResponse
  unfolding compile_request compile_response
  send_compile conn exe args cwd =
      let (conn', response) = request wire conn (compile_request exe cwd args) in
      if is_nonempty args then (conn', compile_response response) else (conn, none)

  unfoldable pub request_compile :
      ServerConnection → Text → List Text → Text → ServerConnection × Option CompileResponse
  unfolding send_compile filter_map
  request_compile conn exe args cwd = elim (to_str exe) [
    | none ↦ (conn, none)
    | some exe' ↦ elim (to_str cwd) [
      | none ↦ (conn, none)
      | some cwd' ↦ send_compile conn exe' (filter_map to_str args) cwd'
    ]
  ]

  unfoldable pub handle_finished : Option ServerResponse → Screen → Screen × Option ℤ
  unfolding has_compile_finished take_compile_finished
  handle_finished none s = (s, none)
  handle_finished (some res) s =
      if has_compile_finished res
      then handle_compile_finished (take_compile_finished res).0 s
      else (s, none)

  unfoldable pub handle_compile_response :
      ServerConnection → CompileResponse → Text → List Text → Text → Screen → Screen × Option ℤ
  unfolding handle_finished
  handle_compile_response conn compile_started exe cmdline cwd s =
      handle_finished (read_one_response wire conn).1 s
  handle_compile_response conn unhandled_compile exe cmdline cwd s =
      handle_local (run exe cmdline cwd) s

  unfoldable pub after_request :
      ServerConnection × Option CompileResponse
      → Text
      → List Text
      → Text
      → Screen
      → Screen × Option ℤ
  unfolding handle_compile_response
  after_request (conn, none) exe cmdline cwd s = (s, none)
  after_request (conn, some response) exe cmdline cwd s =
      handle_compile_response conn response exe cmdline cwd s

  unfoldable pub do_compile :
      ServerConnection → Text → List Text → Text → Screen → Screen × Option ℤ
  unfolding request_compile after_request
  do_compile conn exe cmdline cwd s = elim (which_in exe cwd) [
    | none ↦ (s, none)
    | some path ↦ after_request (request_compile conn path cmdline cwd) path cmdline cwd s
  ]

-- ===== src/Client/Session.antt =====
-- The client of src/commands.rs against the server of src/server.rs: what reaches the user.
use sccache.Prelude.{
  ℤ, pos, negsuc, Text, List, [], ◌∷◌, ◌++◌, ◌≡◌, refl, ap, sym, ◌∙◌, ◌≤◌, ◌-◌, Option, none, some,
  Option-cases, inl, inr, true, length, leb, le→leb, is_nonempty, ◌>>=◌,
}
use sccache.Compiler.CachedCompile.{ExitStatus, exited, signalled, Output, CompileResult}
use sccache.Protocol.Response.{
  ServerResponse, new_response, set_compile_started, set_compile_finished, set_retcode, set_stdout,
  set_stderr, has_compile_started, has_compile_finished, take_compile_finished, has_stdout,
  has_stderr, get_stdout, get_stderr, has_retcode, get_retcode, has_signal,
}
use sccache.Server.Duration.{Duration}
use sccache.Server.Service.{Service}
use sccache.Server.Task.{Ended, end_task, count_result, finish_of, set_status, code}
use sccache.Client.Wire.{Bytes, Wire, WireLaws}
use sccache.Client.Connection.{ServerConnection, request-encoded, read_one_response-encoded}
use sccache.Client.Output.{
  Writer, write_all, Screen, LocalOutput, handle_compile_finished, write_streams, write_stdout,
  write_stderr, finished_status, missing_exit_status,
}
use sccache.Client.Compile.{
  compile_request, compile_response, filter_map, send_compile, request_compile, handle_finished,
  handle_compile_response, compile_started, after_request, do_compile,
}

-- What the client prints for a compiler's output, and its exit code.
abbrev pub wrote : Writer → Bytes → Writer
wrote w bytes = record { written = w.written ++ bytes; room = w.room - length bytes }

abbrev pub streams_shown : Screen → Output → Screen
streams_shown s out = record s {
  stdout = wrote s.stdout out.stdout;
  stderr = wrote s.stderr out.stderr;
}

unfoldable pub shown : Screen → Output → ExitStatus → Screen
shown s out (exited n) = streams_shown s out
shown s out signalled = record (streams_shown s out) { notes = s.notes ++ missing_exit_status ∷ [] }

unfoldable pub exit_code : ExitStatus → ℤ
exit_code (exited n) = pos n
exit_code signalled = negsuc 2

write_all_fits :
    (w : Writer) (bytes : Bytes) → length bytes ≤ w.room → write_all w bytes ≡ (wrote w bytes, true)
unfolding write_all
write_all_fits w bytes h =
    let fits : leb (length bytes) w.room ≡ true = le→leb _ _ h in rw fits refl

finished_status-finish_of :
    (out : Output) (status : ExitStatus) (s : Screen)
    → finished_status (finish_of (record out { status = status })) (streams_shown s out)
      ≡ (shown s out status, some (exit_code status))
unfolding finished_status finish_of set_status code set_retcode set_stdout set_stderr shown
    exit_code has_retcode get_retcode has_signal
finished_status-finish_of out (exited n) s = refl
finished_status-finish_of out signalled s = refl

handle_compile_finished-finish_of :
    (out : Output) (s : Screen)
    → length out.stdout ≤ s.stdout.room
    → length out.stderr ≤ s.stderr.room
    → handle_compile_finished (finish_of out) s
      ≡ (shown s out out.status, some (exit_code out.status))
unfolding handle_compile_finished write_streams write_stdout write_stderr has_stdout has_stderr
    get_stdout get_stderr finish_of set_stdout set_stderr
handle_compile_finished-finish_of out s h k =
    let first = write_all_fits s.stdout out.stdout h in
    let second = write_all_fits s.stderr out.stderr k in
    rw (first, second) (finished_status-finish_of out out.status s)

no_end : {e : Ended} → ◌≡◌ {A = Option Ended} none (some e) → ⊥
no_end h = cc

same_end : {d e : Ended} → some d ≡ some e → d ≡ e
same_end h = cc

end_task-response :
    (s : Service) (compiled : CompileResult) (out : Output) (time : Duration) (e : Ended)
    → end_task s (some (compiled, out)) time ≡ some e
    → e.response ≡ set_compile_finished new_response (finish_of out)
unfolding end_task
end_task-response s compiled out time e h =
    elim (Option-cases (count_result s.stats compiled time)) [
      | inl panic ↦ absurd (no_end (rw (panic, ◌>>=◌) at h))
      | inr (stats, q) ↦ ap (λ x. x.response) (sym (same_end (rw (q, ◌>>=◌) at h)))
    ]

module _ (wire : Wire) (laws : WireLaws wire) (to_str : Text → Option Text)
    (run : Text → List Text → Text → Option LocalOutput)
    (which_in : Text → Text → Option Text) where
  -- The two responses of a compilation, as the server writes them, and what comes after.
  abbrev pub two_responses : ServerResponse → ServerResponse → Bytes → Bytes
  two_responses a b rest =
      laws.prefix (length (laws.body a))
      ++ (laws.body a ++ (laws.prefix (length (laws.body b)) ++ (laws.body b ++ rest)))

  request_compile-started :
      (conn : ServerConnection) (path path' cwd cwd' : Text) (cmdline : List Text)
      (bytes later : Bytes)
      → to_str path ≡ some path'
      → to_str cwd ≡ some cwd'
      → is_nonempty (filter_map to_str cmdline) ≡ true
      → laws.Ready (set_compile_started new_response)
      → conn.writable ≡ true
      → wire.write_request (compile_request path' cwd' (filter_map to_str cmdline)) ≡ some bytes
      → conn.reader
        ≡ laws.prefix (length (laws.body (set_compile_started new_response)))
          ++ (laws.body (set_compile_started new_response) ++ later)
      → request_compile wire to_str run which_in conn path cmdline cwd
        ≡ (record conn { reader = later; writer = conn.writer ++ bytes }, some compile_started)
  unfolding request_compile send_compile compile_response has_compile_started set_compile_started
  request_compile-started conn path path' cwd cwd' cmdline bytes later p c args ready takes written
        h =
      let req = compile_request path' cwd' (filter_map to_str cmdline) in
      let asked =
        request-encoded wire laws conn req bytes (set_compile_started new_response) later ready
          takes written h in
      rw (p, request_compile, c, args, asked) refl

  -- The client prints what the server says of a compilation that it has started.
  do_compile_lem :
      (conn : ServerConnection) (exe path path' cwd cwd' : Text) (cmdline : List Text)
      (bytes rest : Bytes) (finished : ServerResponse) (s : Screen)
      → which_in exe cwd ≡ some path
      → to_str path ≡ some path'
      → to_str cwd ≡ some cwd'
      → is_nonempty (filter_map to_str cmdline) ≡ true
      → laws.Ready (set_compile_started new_response)
      → conn.writable ≡ true
      → wire.write_request (compile_request path' cwd' (filter_map to_str cmdline)) ≡ some bytes
      → laws.Ready finished
      → conn.reader ≡ two_responses (set_compile_started new_response) finished rest
      → do_compile wire to_str run which_in conn exe cmdline cwd s
        ≡ handle_finished wire to_str run which_in (some finished) s
  unfolding do_compile after_request handle_compile_response
  do_compile_lem conn exe path path' cwd cwd' cmdline bytes rest finished s found p c args ready
        takes written ready' h =
      let later = laws.prefix (length (laws.body finished)) ++ (laws.body finished ++ rest) in
      let conn' : ServerConnection = record conn {
        reader = later;
        writer = conn.writer ++ bytes;
      } in
      let asked =
        request_compile-started conn path path' cwd cwd' cmdline bytes later p c args ready takes
          written h in
      let answered = read_one_response-encoded wire laws conn' finished rest ready' refl in
      rw (found, do_compile)
        (ap (λ r. after_request wire to_str run which_in r path cmdline cwd s) asked
          ∙ ap (λ r. handle_finished wire to_str run which_in r.1 s) answered)

  -- The end of a compilation reaches the user: when the server has sent `CompileStarted` and what it
  -- makes of the compiler's output, the client writes the compiler's two streams, if they take them,
  -- and its exit code is the compiler's; for a compiler that a signal ended it is -3, with a note
  -- that the exit status is missing.
  pub do_compile-end_task :
      (conn : ServerConnection) (exe path path' cwd cwd' : Text) (cmdline : List Text)
      (bytes rest : Bytes) (service : Service) (compiled : CompileResult) (out : Output)
      (time : Duration) (e : Ended) (s : Screen)
      → which_in exe cwd ≡ some path
      → to_str path ≡ some path'
      → to_str cwd ≡ some cwd'
      → is_nonempty (filter_map to_str cmdline) ≡ true
      → laws.Ready (set_compile_started new_response)
      → conn.writable ≡ true
      → wire.write_request (compile_request path' cwd' (filter_map to_str cmdline)) ≡ some bytes
      → end_task service (some (compiled, out)) time ≡ some e
      → laws.Ready e.response
      → conn.reader ≡ two_responses (set_compile_started new_response) e.response rest
      → length out.stdout ≤ s.stdout.room
      → length out.stderr ≤ s.stderr.room
      → do_compile wire to_str run which_in conn exe cmdline cwd s
        ≡ (shown s out out.status, some (exit_code out.status))
  unfolding handle_finished has_compile_finished take_compile_finished set_compile_finished
  do_compile-end_task conn exe path path' cwd cwd' cmdline bytes rest service compiled out time e s
        found p c args ready takes written ended ready' h fits fits' =
      do_compile_lem conn exe path path' cwd cwd' cmdline bytes rest e.response s found p c args
        ready takes written ready' h
      ∙ ap (λ m. handle_finished wire to_str run which_in (some m) s)
          (end_task-response service compiled out time e ended)
      ∙ handle_compile_finished-finish_of out s fits fits'

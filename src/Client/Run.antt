-- ===== src/Client/Run.antt =====
-- src/commands.rs: `run_command`; src/main.rs: the exit code of the program.
use sccache.Prelude.{ℕ, ℤ, pos, Text, List, [], Option, none, some, Bool, ◌&&◌, if◌then◌else◌}
use sccache.Protocol.Statistic.{CacheStats}
use sccache.Cmdline.{
  Command, show_stats, zero_stats, internal_start_server, start_server, stop_server, compile,
}
use sccache.Client.Wire.{Wire}
use sccache.Client.Output.{Screen, LocalOutput}
use sccache.Client.Compile.{do_compile}
use sccache.Client.Start as Start
use sccache.Client.Start.{
  ServerStartup, ok, timed_out, err, Attempt, connected, connect_or_start_server,
}
use sccache.Client.Stats.{request_zero_stats, request_stats, request_shutdown, print_stats}

-- How a command ends: with a result, an error, or a panic.
pub data Ending : Type 0 where
  returns : ℤ → Ending
  fails : Ending
  panics : Ending

-- What was printed by `print_stats`, what the compiler's streams became, and the end.
pub record Ran : Type 0 where
  pub lines : List Text
  pub screen : Screen
  pub ending : Ending

-- What the program meets: the attempts to connect, the start of a server, and, for a server in this
-- process, how it ends.
pub record Outside : Type 0 where
  pub attempt : ℕ → Attempt
  pub startup : Option ServerStartup
  pub daemonize : Bool
  pub redirect_error_log : Bool
  pub serves : Bool

module _ (wire : Wire) (to_str : Text → Option Text)
    (run : Text → List Text → Text → Option LocalOutput) (which_in : Text → Text → Option Text)
    (show_size : ℕ → Text) (outside : Outside) where
  abbrev failed : Screen → Ran
  failed s = record { lines = []; screen = s; ending = fails }

  unfoldable pub printed : Screen → Option CacheStats → Ran
  unfolding print_stats
  printed s none = failed s
  printed s (some stats) = elim (print_stats show_size stats) [
    | none ↦ record { lines = []; screen = s; ending = panics }
    | some lines ↦ record { lines = lines; screen = s; ending = returns (pos 0) }
  ]

  unfoldable pub started : Screen → Option ServerStartup → Ran
  started s none = failed s
  started s (some ok) = record { lines = []; screen = s; ending = returns (pos 0) }
  started s (some timed_out) = failed s
  started s (some (err byte)) = failed s

  unfoldable pub compiled : Screen × Option ℤ → Ran
  compiled (s, none) = failed s
  compiled (s, some n) = record { lines = []; screen = s; ending = returns n }

  unfoldable pub stop : Screen → Attempt → Ran
  unfolding printed request_shutdown
  stop s (connected conn) = printed s (request_shutdown wire conn)
  stop s Start.refused = failed s
  stop s Start.no_answer = failed s
  stop s Start.fails = failed s

  unfoldable pub run_command : Command → Screen → Ran
  unfolding connect_or_start_server printed request_stats request_zero_stats started stop do_compile
      compiled
  run_command show_stats s = elim (connect_or_start_server outside.startup outside.attempt) [
    | none ↦ failed s
    | some conn ↦ printed s (request_stats wire conn)
  ]
  run_command zero_stats s = elim (connect_or_start_server outside.startup outside.attempt) [
    | none ↦ failed s
    | some conn ↦ printed s (request_zero_stats wire conn)
  ]
  run_command internal_start_server s =
      if outside.daemonize && outside.redirect_error_log && outside.serves
      then record { lines = []; screen = s; ending = returns (pos 0) }
      else failed s
  run_command start_server s = started s outside.startup
  run_command stop_server s = stop s (outside.attempt 0)
  run_command (compile exe cmdline cwd) s =
      elim (connect_or_start_server outside.startup outside.attempt) [
        | none ↦ failed s
        | some conn ↦ compiled (do_compile wire to_str run which_in conn exe cmdline cwd s)
      ]

-- What `main` exits with for a result of `run_command`; a panic has the exit code 101.
unfoldable pub exit_code_of : Ending → ℤ
exit_code_of (returns n) = n
exit_code_of fails = pos 2
exit_code_of panics = pos 101

-- `main`, with what `cmdline::parse` gave.
unfoldable pub main_exit : (Command → Ending) → Option Command → ℤ
unfolding exit_code_of
main_exit run none = pos 1
main_exit run (some cmd) = exit_code_of (run cmd)

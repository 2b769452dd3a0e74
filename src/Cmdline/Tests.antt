-- ===== src/Cmdline/Tests.antt =====
-- The choice of a command at concrete command lines.
use sccache.Prelude.{Text, List, Option, codes, [], ◌∷◌, ◌≡◌, ◌<◌, refl, none, some, true, false}
use sccache.Cmdline.{Matches, choose, commands_given, is_some, compile_command, compile, zero_stats}
use sccache.Cmdline.Choice

program : Unit {0}
unfolding choose commands_given is_some compile_command
program = tt

abbrev nothing : Matches
nothing = record {
  show_stats = false;
  zero_stats = false;
  start_server = false;
  stop_server = false;
  cmd = none;
}

compiles :
    choose false
      (record nothing { cmd = some (codes "gcc" ∷ codes "-c" ∷ codes "a.c" ∷ []) })
      (codes "/w")
    ≡ some (compile (codes "gcc") (codes "-c" ∷ codes "a.c" ∷ []) (codes "/w"))
unfolding program
compiles = refl

refuses_two :
    choose false (record nothing { show_stats = true; stop_server = true }) (codes "/w") ≡ none
unfolding program
refuses_two = refl

choose-zero_stats_example :
    (1 < commands_given false (record nothing { stop_server = true })
      → choose false (record nothing { stop_server = true }) (codes "/w") ≡ none)
    × (commands_given false (record nothing { stop_server = true }) ≡ 1
        → ◌≡◌ {A = Option (List Text)} none none
        → choose false (record nothing { stop_server = true; zero_stats = true }) (codes "/w")
          ≡ choose false (record nothing { stop_server = true }) (codes "/w"))
    × (commands_given false (record nothing { stop_server = true }) ≡ 1
        → is_some none ≡ true
        → choose false (record nothing { stop_server = true; zero_stats = true }) (codes "/w")
          ≡ some zero_stats)
choose-zero_stats_example =
    Choice.choose-zero_stats false (record nothing { stop_server = true }) (codes "/w") true

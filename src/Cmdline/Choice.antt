-- ===== src/Cmdline/Choice.antt =====
-- What `parse` of src/cmdline.rs does with several commands at once.
use sccache.Prelude.{Text, ◌≡◌, none, some, Bool, true, arith, ◌<◌}
use sccache.Cmdline.{Matches, zero_stats, choose, commands_given, compile_command, is_some}

-- Commands that exclude each other are an error, whatever else was given. But `--zero-stats` is not
-- counted among them: beside a server command or `--show-stats` it is dropped without a word, and
-- beside a compilation it is the compilation that is dropped.
pub choose-zero_stats :
    (internal : Bool) (m : Matches) (cwd : Text) (z : Bool)
    → (1 < commands_given internal m → choose internal m cwd ≡ none)
      × (commands_given internal m ≡ 1
          → m.cmd ≡ none
          → choose internal (record m { zero_stats = z }) cwd ≡ choose internal m cwd)
      × (commands_given internal m ≡ 1
          → is_some m.cmd ≡ true
          → choose internal (record m { zero_stats = true }) cwd ≡ some zero_stats)
unfolding choose commands_given is_some compile_command
choose-zero_stats internal m cwd z =
    (λ h. ground (arith, h), λ h e. ground (arith, h, e), λ h e. ground (arith, h, e))

-- ===== src/Compiler/Process.antt =====
-- Running a compiler: `write_temp_file` of src/compiler/compiler.rs, and the processes and temporary
-- directories that the system provides.
use sccache.Prelude.{Text, List, Option, none, some}
use sccache.FilePath.{join}
use sccache.Fs.{Fs, done, fails, write_file}
use sccache.Compiler.CachedCompile.{Output}
use sccache.Cache.{Bytes}

-- `run` starts the compiler with arguments and an input, as `run_input_output` does, and gives its
-- output if it could be run. `temp_dir` makes a new directory, and `drop_temp` removes it.
pub record System : Type 0 where
  pub run : Fs → List Text → Option Bytes → Fs × Option Output
  pub temp_dir : Fs → Fs × Option Text
  pub drop_temp : Fs → Text → Fs

-- A directory and the file in it.
abbrev pub Temp : Type 0
Temp = Text × Text

module _ (system : System) where
  -- A directory whose file cannot be written is removed.
  unfoldable pub write_in : Text → Bytes → Fs × Option Text → Fs × Option Temp
  unfolding join
  write_in path contents (fs, none) = (fs, none)
  write_in path contents (fs, some dir) = elim (write_file fs (join dir path) contents) [
    | fails f ↦ (system.drop_temp f dir, none)
    | done _ f ↦ (f, some (dir, join dir path))
  ]

  unfoldable pub write_temp_file : Fs → Text → Bytes → Fs × Option Temp
  unfolding write_in
  write_temp_file fs path contents = write_in path contents (system.temp_dir fs)

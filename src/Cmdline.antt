-- ===== src/Cmdline.antt =====
-- src/cmdline.rs: the command that the program was given. clap's matches, the environment and the
-- search for a program are parameters.
pub mod Choice
mod Tests
use sccache.Prelude.{
  ℕ, Text, text_eq, codes, List, [], ◌∷◌, ◌≡◌, refl, ◌+◌, Option, none, some, Bool, true, false,
  if◌then◌else◌, leb, ltb, not, ◌>>=◌,
}

pub data Command : Type 0 where
  show_stats : Command
  zero_stats : Command
  internal_start_server : Command
  start_server : Command
  stop_server : Command
  compile : Text → List Text → Text → Command

-- What clap found on the command line: the flags, and the values of `cmd`.
pub record Matches : Type 0 where
  pub show_stats : Bool
  pub zero_stats : Bool
  pub start_server : Bool
  pub stop_server : Bool
  pub cmd : Option (List Text)

abbrev pub count : Bool → ℕ
count true = 1
count false = 0

unfoldable pub is_some : Option (List Text) → Bool
is_some none = false
is_some (some xs) = true

-- How many of the commands that exclude each other were given.
unfoldable pub commands_given : Bool → Matches → ℕ
unfolding is_some
commands_given internal m =
    count internal
    + count m.show_stats
    + count m.start_server
    + count m.stop_server
    + count (is_some m.cmd)

unfoldable pub compile_command : Text → Option (List Text) → Option Command
compile_command cwd none = none
compile_command cwd (some []) = none
compile_command cwd (some (exe ∷ cmdline)) = some (compile exe cmdline cwd)

-- The end of `parse`, from the matches on; `none` is an error.
unfoldable pub choose : Bool → Matches → Text → Option Command
unfolding commands_given compile_command
choose internal m cwd =
    if ltb 1 (commands_given internal m)
    then none
    else if internal
    then some internal_start_server
    else if m.show_stats
    then some show_stats
    else if m.start_server
    then some start_server
    else if m.stop_server
    then some stop_server
    else if m.zero_stats
    then some zero_stats
    else compile_command cwd m.cmd

-- The environment that `parse` looks at: the executable with its lowercase stem and its file name,
-- PATH with its parts, `which_in`, and what `std` says of paths.
pub record Environment : Type 0 where
  pub current_dir : Option Text
  pub start_server_var : Option Text
  pub current_exe : Option Text
  pub stem : Text → Option Text
  pub file_name : Text → Option Text
  pub path_var : Option Text
  pub which_in : Text → Option Text → Option Text
  pub canonicalize : Text → Option Text
  pub parent : Text → Option Text
  pub path_without : Text → Text → Option Text

abbrev pub set_first : Option Text → List Text → List Text
set_first none args = args
set_first (some path) [] = []
set_first (some path) (a ∷ args) = path ∷ args

module _ (env : Environment) where
  -- The program of this name that is not this executable.
  unfoldable pub find_other : Text → Text → Text → Option (Option Text)
  find_other name path full_path = do
    exe ← env.current_exe
    found ← env.canonicalize full_path
    itself ← env.canonicalize exe
    some (
        if not (text_eq found itself)
        then some full_path
        else (do dir ← env.parent full_path; env.which_in name (env.path_without path dir)))

  unfoldable pub find_named : Text → Text → Option (Option Text)
  unfolding find_other
  find_named name path = elim (env.which_in name (some path)) [
    | none ↦ some none
    | some full_path ↦ find_other name path full_path
  ]

  unfoldable pub insert_name : Option Text → Option Text → List Text → Option (List Text)
  unfolding find_named
  insert_name (some path) (some name) args = do
    other ← find_named name path
    some (codes "sccache" ∷ set_first other args)
  insert_name none name args = some args
  insert_name (some path) none args = some args

  -- Under another name, the program acts as if it had been called with that name; `none` is an
  -- error.
  unfoldable pub rename_args : List Text → Option (List Text)
  unfolding insert_name
  rename_args args = elim env.current_exe [
    | none ↦ some args
    | some exe ↦ elim (env.stem exe) [
      | none ↦ insert_name env.path_var (env.file_name exe) args
      | some stem ↦
          if text_eq stem (codes "sccache")
          then some args
          else insert_name env.path_var (env.file_name exe) args
    ]
  ]

  unfoldable pub is_internal : Bool
  is_internal = elim env.start_server_var [ none ↦ false | some v ↦ text_eq v (codes "1") ]

  -- `parse`, with clap's `get_matches_from`.
  unfoldable pub parse : (List Text → Matches) → List Text → Option Command
  unfolding rename_args is_internal choose
  parse matches args = do
    cwd ← env.current_dir
    args' ← if is_internal then some args else rename_args args
    choose is_internal (matches args') cwd

-- ===== src/Msvc/Defs.antt =====
-- `msvc::parse_arguments`
use sccache.Prelude.{
  Text, text_eq, codes, starts_with, List, [], ◌∷◌, ◌++◌, Option, none, some, Bool, true, false,
  not, ◌||◌, ◌&&◌, if◌then◌else◌, ltb, length, drop,
}
use sccache.FilePath.Names.{extension}
use sccache.Compiler.{CompilerArguments, ok, cannot_cache, not_compilation, Outputs}
use sccache.Gcc.{list_of, is_given}

-- The variables of the loop.
pub record Parser : Type 0 where
  pub output_arg : Option Text
  pub input_arg : Option Text
  pub common_args : List Text
  pub compilation : Bool
  pub debug_info : Bool
  pub pdb : Option Text
  pub depfile : Option Text

abbrev pub new_parser : Parser
new_parser = record {
  output_arg = none;
  input_arg = none;
  common_args = [];
  compilation = false;
  debug_info = false;
  pdb = none;
  depfile = none;
}

-- The arms of the `match`, in the order of the source.
pub data Arm : Type 0 where
  compile output value deps unsupported debug pdb_file option input : Arm

unfoldable pub arm_of : Text → Arm
arm_of arg =
    if text_eq arg (codes "-c")
    then compile
    else if starts_with (codes "-Fo") arg
    then output
    else if text_eq arg (codes "-FI")
    then value
    else if starts_with (codes "-deps") arg
    then deps
    else if text_eq arg (codes "-showIncludes")
    then unsupported
    else if starts_with (codes "@") arg
    then unsupported
    else if text_eq arg (codes "-FA")
        || text_eq arg (codes "-Fa")
        || text_eq arg (codes "-Fe")
        || text_eq arg (codes "-Fm")
        || text_eq arg (codes "-Fp")
        || text_eq arg (codes "-FR")
        || text_eq arg (codes "-Fx")
    then unsupported
    else if text_eq arg (codes "-Zi")
    then debug
    else if starts_with (codes "-Fd") arg
    then pdb_file
    else if starts_with (codes "-") arg && ltb 1 (length arg)
    then option
    else input

-- The body of the loop for an argument of each arm. `v` is what `it.next()` gives; the loop goes on
-- behind it with `skip`, and at it with `go`. `none` is `CannotCache`.
unfoldable pub round :
    Arm
    → Text
    → Option Text
    → (Parser → Option Parser)
    → (Parser → Option Parser)
    → Parser
    → Option Parser
round compile arg v skip go p = go (record p { compilation = true })
round output arg v skip go p = go (record p { output_arg = some (drop 3 arg) })
round value arg v skip go p = skip (record p { common_args = p.common_args ++ arg ∷ list_of v })
round deps arg v skip go p = go (record p { depfile = some (drop 5 arg) })
round unsupported arg v skip go p = none
round debug arg v skip go p =
    go (record p { debug_info = true; common_args = p.common_args ++ arg ∷ [] })
round pdb_file arg v skip go p =
    go (record p { pdb = some (drop 3 arg); common_args = p.common_args ++ arg ∷ [] })
round option arg v skip go p = go (record p { common_args = p.common_args ++ arg ∷ [] })
round input arg v skip go p =
    if is_given p.input_arg then none else go (record p { input_arg = some arg })

unfoldable pub parse_loop : List Text → Parser → Option Parser
unfolding round arm_of
parse_loop [] p = some p
parse_loop (arg ∷ []) p = round (arm_of arg) arg none some some p
parse_loop (arg ∷ v ∷ args) p =
    round (arm_of arg) arg (some v) (parse_loop args) (parse_loop (v ∷ args)) p

-- -Fd is not taken into account unless -Zi is given, and -Zi needs it.
unfoldable pub outputs_of : Text → Bool → Option Text → Option Outputs
outputs_of o false pdb = some ((codes "obj", o) ∷ [])
outputs_of o true none = none
outputs_of o true (some pdb) = some ((codes "obj", o) ∷ (codes "pdb", pdb) ∷ [])

unfoldable pub with_outputs : Parser → Text → Text → Option Outputs → CompilerArguments
with_outputs p i e none = cannot_cache
with_outputs p i e (some outputs) = ok (record {
  input = i;
  extension = e;
  depfile = p.depfile;
  outputs = outputs;
  preprocessor_args = [];
  common_args = p.common_args;
})

unfoldable pub with_output : Parser → Text → Text → Option Text → CompilerArguments
unfolding with_outputs outputs_of
with_output p i e none = cannot_cache
with_output p i e (some o) = with_outputs p i e (outputs_of o p.debug_info p.pdb)

unfoldable pub with_extension : Parser → Text → Option Text → CompilerArguments
unfolding with_output
with_extension p i none = cannot_cache
with_extension p i (some e) = with_output p i e p.output_arg

unfoldable pub with_input : Parser → Option Text → CompilerArguments
unfolding with_extension
with_input p none = cannot_cache
with_input p (some i) = with_extension p i (extension i)

-- What follows the loop.
unfoldable pub finish : Parser → CompilerArguments
unfolding with_input
finish p = if not p.compilation then not_compilation else with_input p p.input_arg

unfoldable pub conclude : Option Parser → CompilerArguments
unfolding finish
conclude none = cannot_cache
conclude (some p) = finish p

unfoldable pub parse_arguments : List Text → CompilerArguments
unfolding conclude parse_loop
parse_arguments arguments = conclude (parse_loop arguments new_parser)

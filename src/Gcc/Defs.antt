-- ===== src/Gcc/Defs.antt =====
-- `gcc::parse_arguments`, shared with clang.
use sccache.Prelude.{
  ℕ, zero, suc, Text, text_eq, codes, starts_with, contains, List, [], ◌∷◌, ◌++◌, Option, none,
  some, Bool, true, false, not, ◌||◌, ◌&&◌, if◌then◌else◌, ltb, length,
}
use sccache.FilePath.Names.{extension, with_extension}
use sccache.Compiler.{CompilerArguments, ok, cannot_cache, not_compilation, Outputs}
use sccache.Gcc.Expand.{Next, item, ended, out_of_fuel, next}

-- `gcc::ARGS_WITH_VALUE`
abbrev pub args_with_value : List Text
args_with_value =
    codes "--param"
    ∷ codes "-A"
    ∷ codes "-D"
    ∷ codes "-F"
    ∷ codes "-G"
    ∷ codes "-I"
    ∷ codes "-L"
    ∷ codes "-U"
    ∷ codes "-V"
    ∷ codes "-Xassembler"
    ∷ codes "-Xlinker"
    ∷ codes "-Xpreprocessor"
    ∷ codes "-aux-info"
    ∷ codes "-b"
    ∷ codes "-idirafter"
    ∷ codes "-iframework"
    ∷ codes "-imacros"
    ∷ codes "-imultilib"
    ∷ codes "-include"
    ∷ codes "-install_name"
    ∷ codes "-iprefix"
    ∷ codes "-iquote"
    ∷ codes "-isysroot"
    ∷ codes "-isystem"
    ∷ codes "-iwithprefix"
    ∷ codes "-iwithprefixbefore"
    ∷ codes "-u"
    ∷ []

unfoldable pub argument_takes_value : Text → Bool
argument_takes_value arg = contains args_with_value arg

-- The variables of the loop.
pub record Parser : Type 0 where
  pub output_arg : Option Text
  pub input_arg : Option Text
  pub dep_target : Option Text
  pub common_args : List Text
  pub preprocessor_args : List Text
  pub compilation : Bool
  pub split_dwarf : Bool
  pub need_explicit_dep_target : Bool

abbrev pub new_parser : Parser
new_parser = record {
  output_arg = none;
  input_arg = none;
  dep_target = none;
  common_args = [];
  preprocessor_args = [];
  compilation = false;
  split_dwarf = false;
  need_explicit_dep_target = false;
}

-- The arms of the `match`, in the order of the source.
pub data Arm : Type 0 where
  compile output dwarf value preprocessor_value target unsupported dependency option input : Arm

unfoldable pub arm_of : (Text → Bool) → Text → Arm
arm_of takes_value arg =
    if text_eq arg (codes "-c")
    then compile
    else if text_eq arg (codes "-o")
    then output
    else if text_eq arg (codes "-gsplit-dwarf")
    then dwarf
    else if takes_value arg
    then value
    else if text_eq arg (codes "-MF") || text_eq arg (codes "-MQ")
    then preprocessor_value
    else if text_eq arg (codes "-MT")
    then target
    else if text_eq arg (codes "-fcxx-modules")
    then unsupported
    else if text_eq arg (codes "-fmodules")
    then unsupported
    else if text_eq arg (codes "-fprofile-use")
    then unsupported
    else if starts_with (codes "@") arg
    then unsupported
    else if text_eq arg (codes "-M")
        || text_eq arg (codes "-MM")
        || text_eq arg (codes "-MD")
        || text_eq arg (codes "-MMD")
    then dependency
    else if starts_with (codes "-") arg && ltb 1 (length arg)
    then option
    else input

-- The value behind an option, if the arguments go on.
abbrev pub list_of : Option Text → List Text
list_of none = []
list_of (some v) = v ∷ []

abbrev pub is_given : Option Text → Bool
is_given none = false
is_given (some v) = true

-- What one round of the loop does: it goes on, returns `CannotCache`, or has no fuel.
pub data Round : Type 0 where
  go_on : Parser → List Text → Round
  reject : Round
  stuck : Round

unfoldable pub with_next : Next → (Option Text → Parser) → Round
with_next (item v stack) f = go_on (f (some v)) stack
with_next ended f = go_on (f none) []
with_next out_of_fuel f = stuck

-- The body of the loop for an argument of each arm; `following` is what `it.next()` gives.
unfoldable pub round : Arm → Text → List Text → Next → Parser → Round
unfolding with_next
round compile arg stack following p = go_on (record p { compilation = true }) stack
round output arg stack following p = with_next following (λ v. record p { output_arg = v })
round dwarf arg stack following p =
    go_on (record p { split_dwarf = true; common_args = p.common_args ++ arg ∷ [] }) stack
round value arg stack following p =
    with_next following (λ v. record p { common_args = p.common_args ++ arg ∷ list_of v })
round preprocessor_value arg stack following p =
    with_next following
      (λ v. record p { preprocessor_args = p.preprocessor_args ++ arg ∷ list_of v })
round target arg stack following p = with_next following (λ v. record p { dep_target = v })
round unsupported arg stack following p = reject
round dependency arg stack following p =
    go_on
      (record p {
        need_explicit_dep_target = true;
        preprocessor_args = p.preprocessor_args ++ arg ∷ [];
      })
      stack
round option arg stack following p =
    go_on (record p { common_args = p.common_args ++ arg ∷ [] }) stack
round input arg stack following p =
    if is_given p.input_arg || text_eq arg (codes "-")
    then reject
    else go_on (record p { input_arg = some arg }) stack

-- How the loop ends.
pub data LoopEnd : Type 0 where
  finished : Parser → LoopEnd
  rejected : LoopEnd
  no_fuel : LoopEnd

unfoldable pub known_extension : Text → Bool
known_extension e =
    text_eq e (codes "c")
    || text_eq e (codes "cc")
    || text_eq e (codes "cpp")
    || text_eq e (codes "cxx")

unfoldable pub outputs_of : Text → Bool → Outputs
unfolding with_extension
outputs_of o split_dwarf =
    (codes "obj", o)
    ∷ (if split_dwarf then (codes "dwo", with_extension o (codes "dwo")) ∷ [] else [])

abbrev pub unwrap_or : Option Text → Text → Text
unwrap_or none d = d
unwrap_or (some v) d = v

-- The code behind the checks for an input with a known extension, from the `match` on the output.
unfoldable pub with_output : Parser → Text → Text → Option Text → CompilerArguments
with_output p i e none = cannot_cache
with_output p i e (some o) = ok (record {
  input = i;
  extension = e;
  depfile = none;
  outputs = outputs_of o p.split_dwarf;
  preprocessor_args =
      if p.need_explicit_dep_target
      then p.preprocessor_args ++ codes "-MT" ∷ unwrap_or p.dep_target o ∷ []
      else p.preprocessor_args;
  common_args = p.common_args;
})

unfoldable pub with_input : Parser → Option Text → CompilerArguments
unfolding with_output
with_input p none = cannot_cache
with_input p (some i) = elim (extension i) [
  | none ↦ cannot_cache
  | some e ↦ if known_extension e then with_output p i e p.output_arg else cannot_cache
]

-- What follows the loop.
unfoldable pub finish : Parser → CompilerArguments
unfolding with_input
finish p = if not p.compilation then not_compilation else with_input p p.input_arg

module _ (takes_value : Text → Bool) where
  -- The `while let` loop over the expanded arguments. `included_fuel` bounds the files that one
  -- call of `next` opens, `fuel` the rounds.
  module _ (read : Text → Option Text) (cwd : Text) (included_fuel : ℕ) where
    unfoldable pub after_round : (List Text → Parser → LoopEnd) → Round → LoopEnd
    after_round continue (go_on p stack) = continue stack p
    after_round continue reject = rejected
    after_round continue stuck = no_fuel

    unfoldable pub on_item : (List Text → Parser → LoopEnd) → Parser → Next → LoopEnd
    unfolding after_round round
    on_item continue p (item arg stack) =
        after_round continue
          (round (arm_of takes_value arg) arg stack (next read cwd included_fuel stack) p)
    on_item continue p ended = finished p
    on_item continue p out_of_fuel = no_fuel

    unfoldable pub parse_loop : ℕ → List Text → Parser → LoopEnd
    unfolding on_item
    parse_loop zero stack p = no_fuel
    parse_loop (suc fuel) stack p = on_item (parse_loop fuel) p (next read cwd included_fuel stack)

    unfoldable pub conclude : LoopEnd → Option CompilerArguments
    conclude (finished p) = some (finish p)
    conclude rejected = some cannot_cache
    conclude no_fuel = none

    -- `none` if the fuel runs out.
    unfoldable pub parse_arguments : ℕ → List Text → Option CompilerArguments
    unfolding conclude
    parse_arguments fuel arguments = conclude (parse_loop fuel arguments new_parser)

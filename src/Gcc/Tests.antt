-- ===== src/Gcc/Tests.antt =====
-- The theorems of the gcc parser at concrete command lines, and the cases of its unit tests.
use sccache.Prelude.{
  Text, codes, text_eq, starts_with, contains, List, [], ◌∷◌, ◌≡◌, ◌≢◌, refl, Option, none, some,
  text_eq as same, if◌then◌else◌, inl, arith,
}
use sccache.FilePath.{join}
use sccache.FilePath.Names.{extension, with_extension}
use sccache.Compiler.{ParsedArguments, CompilerArguments, ok, cannot_cache, not_compilation}
use sccache.Gcc.{
  argument_takes_value, parse_arguments, arm_of, round, finish, outputs_of, known_extension,
  included, next, parse_loop, conclude, split_whitespace,
}
use sccache.Gcc.Groups.{words, groups, groups_from, takes_next, any_arm, last_value, is_common}
use sccache.Gcc.Flat.{Expands, nil, literal, weight}
use sccache.Gcc.Commands.{run, compile, language_of}
use sccache.Gcc.Accepted
use sccache.Gcc.Accepted.{Accepted}
use sccache.Gcc.Compile

program : Unit {0}
unfolding text_eq starts_with contains join extension with_extension argument_takes_value
    parse_arguments arm_of round finish outputs_of known_extension included next parse_loop conclude
    split_whitespace words groups_from takes_next any_arm last_value compile language_of weight
program = tt

abbrev no_files : Text → Option Text
no_files path = none

abbrev parse : List Text → Option CompilerArguments
parse args = parse_arguments argument_takes_value no_files (codes ".") 20 20 args

-- gcc -MT depfile -fabc -c foo.c -gsplit-dwarf -MD -o foo.o
abbrev line : List Text
line =
    codes "-MT"
    ∷ codes "depfile"
    ∷ codes "-fabc"
    ∷ codes "-c"
    ∷ codes "foo.c"
    ∷ codes "-gsplit-dwarf"
    ∷ codes "-MD"
    ∷ codes "-o"
    ∷ codes "foo.o"
    ∷ []

abbrev parsed : ParsedArguments
parsed = record {
  input = codes "foo.c";
  extension = codes "c";
  depfile = none;
  outputs = (codes "obj", codes "foo.o") ∷ (codes "dwo", codes "foo.dwo") ∷ [];
  preprocessor_args = codes "-MD" ∷ codes "-MT" ∷ codes "depfile" ∷ [];
  common_args = codes "-fabc" ∷ codes "-gsplit-dwarf" ∷ [];
}

accepts_line : parse line ≡ some (ok parsed)
unfolding program
accepts_line = refl

parse_modules : parse (codes "-c" ∷ codes "foo.c" ∷ codes "-fmodules" ∷ []) ≡ some cannot_cache
unfolding program
parse_modules = refl

parse_no_compile : parse (codes "-o" ∷ codes "foo" ∷ []) ≡ some not_compilation
unfolding program
parse_no_compile = refl

abbrev one_file : Text → Option Text
one_file path = if same path (codes "./foo") then some (codes " -c foo.c  -o foo.o") else none

parse_at_file :
    parse_arguments argument_takes_value one_file (codes ".") 20 20 (codes "@foo" ∷ [])
    ≡ parse (codes "-c" ∷ codes "foo.c" ∷ codes "-o" ∷ codes "foo.o" ∷ [])
unfolding program
parse_at_file = refl

-- None of the arguments begins with `@`.
line_expands : Expands argument_takes_value no_files (codes ".") line line
unfolding starts_with
line_expands = literal (inl refl) (
    literal (inl refl) (
      literal (inl refl) (
        literal (inl refl) (
          literal (inl refl) (
            literal (inl refl)
              (literal (inl refl) (literal (inl refl) (literal (inl refl) nil))))))))

parse_arguments_total_example : parse line ≢ none
unfolding line_expands weight
parse_arguments_total_example =
    Accepted.parse_arguments_total argument_takes_value no_files (codes ".") 20 20 line_expands
      (omega arith) (omega arith)

parse_arguments-Accepted_example :
    Accepted argument_takes_value (groups argument_takes_value line) parsed
unfolding line_expands weight
parse_arguments-Accepted_example =
    Accepted.parse_arguments-Accepted argument_takes_value no_files (codes ".") 20 20 line_expands
      (omega arith) (omega arith) parsed accepts_line

compile-parse_arguments_example :
    (language : Text) × (object : Text) × (language_of (codes "c") ≡ some language)
    × (compile parsed
        ≡ run (
            codes "-c"
            ∷ codes "-x"
            ∷ language
            ∷ codes "-"
            ∷ codes "-o"
            ∷ object
            ∷ words argument_takes_value is_common (groups argument_takes_value line)))
unfolding line_expands weight
compile-parse_arguments_example =
    Compile.compile-parse_arguments argument_takes_value no_files (codes ".") 20 20 line_expands
      (omega arith) (omega arith) parsed accepts_line

abbrev self_naming : Text → Option Text
self_naming path = some (codes "@foo")

parse_arguments_cycle_example :
    parse_arguments argument_takes_value self_naming
      (codes ".")
      50
      50
      (codes "@foo" ∷ codes "-c" ∷ [])
    ≡ none
unfolding program
parse_arguments_cycle_example =
    Compile.parse_arguments_cycle argument_takes_value self_naming (codes ".") 50 50 (codes "@foo")
      [] (codes "-c" ∷ []) refl refl

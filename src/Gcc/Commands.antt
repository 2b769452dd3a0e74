-- ===== src/Gcc/Commands.antt =====
-- The command lines that `gcc::preprocess` and `gcc::compile` build for the compiler.
use sccache.Prelude.{Text, text_eq, codes, List, ◌∷◌, ◌++◌, Option, none, some, ◌||◌, if◌then◌else◌}
use sccache.Compiler.{ParsedArguments, get_output}

-- The command line, or the message of the error.
pub data Command : Type 0 where
  run : List Text → Command
  fail : Text → Command

unfoldable pub preprocess : ParsedArguments → List Text
preprocess p = codes "-E" ∷ p.input ∷ (p.preprocessor_args ++ p.common_args)

unfoldable pub language_of : Text → Option Text
language_of e =
    if text_eq e (codes "c")
    then some (codes "cpp-output")
    else if text_eq e (codes "cc") || text_eq e (codes "cpp") || text_eq e (codes "cxx")
    then some (codes "c++-cpp-output")
    else none

unfoldable pub compile_to : ParsedArguments → Option Text → Command
unfolding language_of
compile_to p none = fail (codes "Missing object file output")
compile_to p (some out) = elim (language_of p.extension) [
  | none ↦ fail (codes "Unexpected file extension")
  | some language ↦
      run (codes "-c" ∷ codes "-x" ∷ language ∷ codes "-" ∷ codes "-o" ∷ out ∷ p.common_args)
]

-- The preprocessor's output goes to the command's standard input.
unfoldable pub compile : ParsedArguments → Command
unfolding compile_to get_output
compile p = compile_to p (get_output (codes "obj") p.outputs)

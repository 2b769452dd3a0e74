-- ===== src/Compiler/Types.antt =====
-- `ParsedArguments`, `CompilerArguments` and `CompilerKind`.
use sccache.Prelude.{Text, text_eq, codes, List, [], ◌∷◌, Option, none, some, if◌then◌else◌}
use sccache.FilePath.Names.{file_name}

-- `HashMap<&'static str, String>`, as an association list with no key twice.
abbrev pub Outputs : Type 0
Outputs = List (Text × Text)

unfoldable pub get_output : Text → Outputs → Option Text
get_output k [] = none
get_output k ((j, path) ∷ outputs) = if text_eq j k then some path else get_output k outputs

pub record ParsedArguments : Type 0 where
  pub input : Text
  pub extension : Text
  pub depfile : Option Text
  pub outputs : Outputs
  pub preprocessor_args : List Text
  pub common_args : List Text

pub data CompilerArguments : Type 0 where
  ok : ParsedArguments → CompilerArguments
  cannot_cache : CompilerArguments
  not_compilation : CompilerArguments

pub data CompilerKind : Type 0 where
  gcc clang : CompilerKind
  msvc : Text → CompilerKind

unfoldable pub output_name : Option Text → Text
unfolding file_name
output_name none = codes "Unknown filename"
output_name (some path) = elim (file_name path) [ none ↦ codes "Unknown filename" | some n ↦ n ]

-- `ParsedArguments::output_file`
unfoldable pub output_file : ParsedArguments → Text
unfolding output_name get_output
output_file p = output_name (get_output (codes "obj") p.outputs)

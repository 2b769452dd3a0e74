-- ===== src/Kinds/Tests.antt =====
-- The outputs of a concrete command line.
use sccache.Prelude.{Text, ◌≡◌, text_eq, codes, starts_with, List, [], ◌∷◌, refl, none}
use sccache.FilePath.Names.{extension}
use sccache.Compiler.{ParsedArguments, msvc}
use sccache.Compiler.CachedCompile.{output_paths}
use sccache.Compiler.Kept.{PlainOutputs}
use sccache.FilePath.{join}
use sccache.Msvc
use sccache.Prelude.{some, false}
use sccache.Fs.{Fs, write_file}
use sccache.Compiler.{clang}
use sccache.Compiler.CachedCompile.{exited}
use sccache.Compiler.Process.{System, write_temp_file}
use sccache.Msvc.Prefix.{lines}
use sccache.FilePath.{is_absolute, with_separator, ends_in_slash}
use sccache.Kinds.Detected
use sccache.Kinds.Detect.{detect_compiler_kind, named}
use sccache.Kinds.Detected.{Detected}
use sccache.Kinds
use sccache.Kinds.{parse_arguments}
use sccache.Prelude.{ne_of_text_eq}

program : Unit {0}
unfolding text_eq starts_with extension join parse_arguments output_paths Msvc.arm_of
    Msvc.parse_arguments Msvc.parse_loop Msvc.outputs_of is_absolute with_separator ends_in_slash
    write_file write_temp_file lines detect_compiler_kind named
program = tt

abbrev line : List Text
line = codes "-c" ∷ codes "a.c" ∷ codes "-Foa.obj" ∷ codes "-Zi" ∷ codes "-Fda.pdb" ∷ []

abbrev parsed : ParsedArguments
parsed = record {
  input = codes "a.c";
  extension = codes "c";
  depfile = none;
  outputs = (codes "obj", codes "a.obj") ∷ (codes "pdb", codes "a.pdb") ∷ [];
  preprocessor_args = [];
  common_args = codes "-Zi" ∷ codes "-Fda.pdb" ∷ [];
}

parse_arguments-PlainOutputs_example : PlainOutputs (output_paths (codes "/w") parsed.outputs)
unfolding program
parse_arguments-PlainOutputs_example =
    Kinds.parse_arguments-PlainOutputs (msvc (codes "Note: ")) (λ path. none) (codes "/w") 1 1 line
      parsed refl ((ne_of_text_eq _ _ refl, tt), (tt, tt))

abbrev disk : Fs
disk = record { files = λ p. none; denied = λ call p. false; now = 7; partial = 0 }

abbrev clang_system : System
clang_system = record {
  run = λ fs args input.
      (disk, some (record { status = exited 0; stdout = codes "# 1\nclang\n"; stderr = [] }));
  temp_dir = λ fs. (fs, some (codes "/tmp/x"));
  drop_temp = λ fs dir. disk;
}

detect_compiler_kind-Detected_example :
    (f : Fs) × (dir : Text) × (src : Text) × (write_temp_file clang_system disk
        (codes "testfile.c")
        (codes
          "#if defined(_MSC_VER)\nmsvc\n#elif defined(__clang__)\nclang\n#elif defined(__GNUC__)\ngcc\n#endif\n")
      ≡ (f, some (dir, src)))
    × Detected (λ bytes. some bytes) (clang_system.run f (codes "-E" ∷ src ∷ []) none).1 clang
unfolding program
detect_compiler_kind-Detected_example =
    Detected.detect_compiler_kind-Detected clang_system (λ bytes. some bytes) (λ bytes. some bytes)
      disk clang disk refl

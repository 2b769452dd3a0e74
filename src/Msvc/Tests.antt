-- ===== src/Msvc/Tests.antt =====
-- MSVC's parser at concrete command lines, some of them those of its unit tests.
use sccache.Prelude.{
  ◌↔◌, ◌++◌, Option, none, some, false, if◌then◌else◌, Text, text_eq, codes, starts_with, List, [],
  ◌∷◌, ◌≡◌, refl, some,
}
use sccache.FilePath.Names.{extension}
use sccache.Compiler.{ParsedArguments, ok, cannot_cache, not_compilation}
use sccache.Msvc.Defs.{arm_of, round, parse_loop, outputs_of, conclude, parse_arguments}
use sccache.Msvc.Groups.{groups, words, any_arm, last_suffix, takes_next}
use sccache.FilePath.{join, is_absolute, with_separator, ends_in_slash}
use sccache.FilePath.Names.{file_name}
use sccache.Fs.{Fs, File, write_file, metadata}
use sccache.Compiler.{get_output}
use sccache.Compiler.CachedCompile.{Output, exited, no_cacheable, success}
use sccache.Compiler.Process.{System, write_temp_file}
use sccache.Msvc.Commands
use sccache.Msvc.Commands.{compile, cacheable_with, exists, attempt_args, retry_args, PdbThere}
use sccache.Msvc.Prefix
use sccache.Msvc.Prefix.{
  detect_showincludes_prefix, prefix_before, ends_with, lines, Detected, prefix_args,
}
use sccache.Msvc.Accepted
use sccache.Msvc.Accepted.{Accepted}

program : Unit {0}
unfolding text_eq starts_with extension arm_of round parse_loop outputs_of conclude parse_arguments
    groups words any_arm last_suffix takes_next join is_absolute with_separator ends_in_slash
    file_name write_file metadata get_output success write_temp_file compile cacheable_with exists
    attempt_args retry_args detect_showincludes_prefix prefix_before ends_with lines
program = tt

abbrev line : List Text
line =
    codes "-c"
    ∷ codes "foo.c"
    ∷ codes "-FI"
    ∷ codes "file"
    ∷ codes "-Fofoo.obj"
    ∷ codes "-Zi"
    ∷ codes "-Fdfoo.pdb"
    ∷ codes "-depsfoo.d"
    ∷ []

abbrev parsed : ParsedArguments
parsed = record {
  input = codes "foo.c";
  extension = codes "c";
  depfile = some (codes "foo.d");
  outputs = (codes "obj", codes "foo.obj") ∷ (codes "pdb", codes "foo.pdb") ∷ [];
  preprocessor_args = [];
  common_args = codes "-FI" ∷ codes "file" ∷ codes "-Zi" ∷ codes "-Fdfoo.pdb" ∷ [];
}

accepts_line : parse_arguments line ≡ ok parsed
unfolding program
accepts_line = refl

refuses_two_inputs :
    parse_arguments (codes "-c" ∷ codes "foo.c" ∷ codes "-Fofoo.obj" ∷ codes "bar.c" ∷ [])
    ≡ cannot_cache
unfolding program
refuses_two_inputs = refl

refuses_link : parse_arguments (codes "-Fofoo" ∷ []) ≡ not_compilation
unfolding program
refuses_link = refl

refuses_default_pdb :
    parse_arguments (codes "-c" ∷ codes "foo.c" ∷ codes "-Zi" ∷ codes "-Fofoo.obj" ∷ [])
    ≡ cannot_cache
unfolding program
refuses_default_pdb = refl

parse_arguments_lem_example : Accepted (groups line) parsed
unfolding program
parse_arguments_lem_example = Accepted.parse_arguments_lem line parsed refl

abbrev pdb_there : Text → Option File
pdb_there p =
    if text_eq p (codes "/w/foo.pdb") then some (record { contents = []; mtime = 1 }) else none

abbrev disk : Fs
disk = record { files = pdb_there; denied = λ call p. false; now = 7; partial = 0 }

abbrev failure : Output
failure = record { status = exited 2; stdout = codes "error"; stderr = [] }

-- Every run fails, and the temporary files are not kept.
abbrev failing : System
failing = record {
  run = λ fs args input. (disk, some failure);
  temp_dir = λ fs. (fs, some (codes "/tmp/x"));
  drop_temp = λ fs dir. disk;
}

compile-PdbThere_example :
    ((no_cacheable ≡ no_cacheable) ↔ PdbThere failing parsed (codes "/w") disk)
    × (success failure.status ≡ false
        → (between : Fs) × (out : Text) × (get_output (codes "obj") parsed.outputs ≡ some out)
          × (failing.run between
                (codes "-c" ∷ parsed.input ∷ (codes "-Fo" ++ out) ∷ parsed.common_args)
                none
              ≡ (disk, some failure)))
unfolding program
compile-PdbThere_example =
    Commands.compile-PdbThere failing parsed (codes "/w") disk disk (codes "int x;") no_cacheable
      failure refl

abbrev headers : Fs
headers = record {
  files = λ p.
      if text_eq p (codes "/i/stdio.h") then some (record { contents = []; mtime = 1 }) else none;
  denied = λ call p. false;
  now = 7;
  partial = 0;
}

-- A compiler that names the file that it includes.
abbrev verbose : System
verbose = record {
  run = λ fs args input. (
    headers,
    some (record { status = exited 0; stdout = codes "t.c\nNote: x /i/stdio.h\n"; stderr = [] }),
  );
  temp_dir = λ fs. (fs, some (codes "/tmp/x"));
  drop_temp = λ fs dir. fs;
}

detect_showincludes_prefix-Detected_example :
    (f : Fs) × (input : Text) × Detected
      (λ bytes. some bytes)
      (verbose.run f (prefix_args input) none).1
      headers
      (codes "Note: x ")
unfolding program
detect_showincludes_prefix-Detected_example =
    Prefix.detect_showincludes_prefix-Detected verbose (λ bytes. some bytes) headers headers
      (codes "Note: x ") refl

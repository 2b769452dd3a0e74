-- ===== src/Clang/Tests.antt =====
-- clang's compilation with a compiler that fails, and its arguments with values.
use sccache.Prelude.{
  text_eq, codes, contains, starts_with, [], ◌∷◌, ◌≡◌, refl, none, some, true, false,
}
use sccache.FilePath.{join, is_absolute, with_separator, ends_in_slash}
use sccache.FilePath.Names.{file_name}
use sccache.Fs.{Fs, write_file}
use sccache.Compiler.{ParsedArguments, get_output}
use sccache.Compiler.CachedCompile.{Output, exited, success}
use sccache.Compiler.Process.{System, write_temp_file}
use sccache.Clang
use sccache.Clang.{compile, any_werror, argument_takes_value, attempt_args, retry_args}

program : Unit {0}
unfolding text_eq contains starts_with join is_absolute with_separator ends_in_slash file_name
    write_file get_output success write_temp_file compile any_werror argument_takes_value
    attempt_args retry_args
program = tt

abbrev disk : Fs
disk = record { files = λ p. none; denied = λ call p. false; now = 7; partial = 0 }

abbrev failure : Output
failure = record { status = exited 1; stdout = []; stderr = codes "error" }

-- Every run fails, and the temporary files are not kept.
abbrev failing : System
failing = record {
  run = λ fs args input. (disk, some failure);
  temp_dir = λ fs. (fs, some (codes "/tmp/x"));
  drop_temp = λ fs dir. disk;
}

abbrev args : ParsedArguments
args = record {
  input = codes "foo.c";
  extension = codes "c";
  depfile = none;
  outputs = (codes "obj", codes "foo.o") ∷ [];
  preprocessor_args = [];
  common_args = codes "-Werror=all" ∷ [];
}

arch_takes_value : argument_takes_value (codes "-arch") ≡ true
unfolding program
arch_takes_value = refl

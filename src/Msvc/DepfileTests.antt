-- ===== src/Msvc/DepfileTests.antt =====
-- A dependency file that is made.
use sccache.Prelude.{
  ℕ, Text, text_eq, codes, starts_with, contains, List, [], ◌∷◌, ◌≡◌, refl, Option, some, none,
  false, true, Bool, ◌↔◌, ◌++◌, ◌==◌,
}
use sccache.FilePath.{join, is_absolute, with_separator, ends_in_slash}
use sccache.Fs.{Fs, File}
use sccache.Compiler.{ParsedArguments, get_output}
use sccache.Compiler.CachedCompile.{Output, exited}
use sccache.Compiler.Process.{System}
use sccache.Msvc.Prefix.{lines, add_to_line}
use sccache.Msvc.Preprocess.{
  preprocess, depfile_text, sorted, rule_names, extra_rules, has_space, insert_sorted, text_ltb,
  dependency, skip_space,
}
use sccache.Msvc.Depfile
use sccache.Msvc.Depfile.{Named}
use sccache.Msvc.Included.{other_lines}
use sccache.Msvc.Rules.{spaced, rules, Once}
use sccache.Msvc.Order.{Ascending}
use sccache.Cache.{Bytes}

program : Unit {0}
unfolding text_eq starts_with join is_absolute with_separator ends_in_slash get_output lines
    add_to_line depfile_text sorted rule_names extra_rules has_space insert_sorted text_ltb
    dependency skip_space other_lines
program = tt

abbrev parsed : ParsedArguments
parsed = record {
  input = codes "a.c";
  extension = codes "c";
  depfile = some (codes "a.d");
  outputs = (codes "obj", codes "a.obj") ∷ [];
  preprocessor_args = [];
  common_args = [];
}

abbrev disk : Fs
disk = record { files = λ p. none; denied = λ call p. false; now = 7; partial = 0 }

abbrev reported : Text
reported = codes "Note: b.h\nwarning\nNote: a.h\nNote: b.h\n"

abbrev output : Output
output = record { status = exited 0; stdout = codes "int x;"; stderr = reported }

abbrev cl : System
cl = record {
  run = λ fs args input. (disk, some output);
  temp_dir = λ fs. (fs, none);
  drop_temp = λ fs dir. fs;
}

abbrev decode : Bytes → Option Text
decode bytes = some bytes

abbrev is_space : ℕ → Bool
is_space c = c == 32

makes_rules :
    depfile_text (codes "a.obj") (codes "a.c") (codes "b.h" ∷ codes "a.h" ∷ [])
    ≡ codes "a.obj: a.c b.h a.h \na.c:\na.h:\nb.h:\n"
unfolding program
makes_rules = refl

preprocess-depfile_example :
    (names listed : List Text) × (files : Text → Option File) × (preprocess cl decode
        (λ t. t)
        is_space
        (codes "Note:")
        (codes "/w")
        parsed
        disk
      ≡ (record disk { files = files }, some (record output { stderr = codes "warning\n" })))
    × (files (codes "/w/a.d")
        ≡ some (record {
          contents =
              codes "a.obj: a.c "
              ++ spaced names
              ++ codes "\n"
              ++ codes "a.c"
              ++ codes ":\n"
              ++ rules listed;
          mtime = 7;
        }))
    × ((d : Text)
        → ((contains names d ≡ true) ↔ Named cl decode (λ t. t) is_space (codes "Note:") reported d)
          × ((contains listed d ≡ true)
              ↔ Named cl decode (λ t. t) is_space (codes "Note:") reported d))
    × Once names
    × Once listed
    × Ascending listed
unfolding program
preprocess-depfile_example =
    Depfile.preprocess-depfile cl decode (λ t. t) is_space (codes "Note:") (codes "/w") parsed disk
      disk output (codes "a.d") (codes "a.obj") reported refl refl refl refl (λ call p. refl)

-- ===== src/Kinds/Detect.antt =====
-- `detect_compiler_kind` of src/compiler/compiler.rs. `utf8` stands for `str::from_utf8`, `decode` for
-- the conversion from the local code page.
use sccache.Prelude.{Text, text_eq, codes, List, [], ◌∷◌, Option, none, some, if◌then◌else◌}
use sccache.Fs.{Fs}
use sccache.Compiler.{CompilerKind, gcc, clang, msvc}
use sccache.Compiler.CachedCompile.{Output}
use sccache.Compiler.Process.{System, Temp, write_temp_file}
use sccache.Msvc.Prefix.{detect_showincludes_prefix, lines}
use sccache.Cache.{Bytes}

abbrev pub test_program : Text
test_program =
    codes
      "#if defined(_MSC_VER)\nmsvc\n#elif defined(__clang__)\nclang\n#elif defined(__GNUC__)\ngcc\n#endif\n"

-- The compiler that a line names.
pub data Named : Type 0 where
  names_gcc names_clang names_msvc : Named

unfoldable pub named : Text → Option Named
named line =
    if text_eq line (codes "gcc")
    then some names_gcc
    else if text_eq line (codes "clang")
    then some names_clang
    else if text_eq line (codes "msvc")
    then some names_msvc
    else none

-- The loop over the lines, up to the first that names a compiler.
unfoldable pub first_named : List Text → Option Named
unfolding named
first_named [] = none
first_named (l ∷ ls) = let rest = first_named ls in elim (named l) [ some n ↦ some n | none ↦ rest ]

module _ (system : System) (utf8 decode : Bytes → Option Text) where
  unfoldable pub with_prefix : Fs × Option Text → Fs × Option (Option CompilerKind)
  with_prefix (fs, none) = (fs, none)
  with_prefix (fs, some prefix) = (fs, some (some (msvc prefix)))

  unfoldable pub kind_of : Fs → Option Named → Fs × Option (Option CompilerKind)
  unfolding with_prefix
  kind_of fs none = (fs, some none)
  kind_of fs (some names_gcc) = (fs, some (some gcc))
  kind_of fs (some names_clang) = (fs, some (some clang))
  kind_of fs (some names_msvc) = with_prefix (detect_showincludes_prefix system decode fs)

  unfoldable pub read_kind : Fs × Option Output → Fs × Option (Option CompilerKind)
  unfolding kind_of first_named
  read_kind (fs, none) = (fs, none)
  read_kind (fs, some out) = elim (utf8 out.stdout) [
    | none ↦ (fs, none)
    | some text ↦ kind_of fs (first_named (lines text))
  ]

  unfoldable pub run_on : Fs × Option Temp → Fs × Option (Option CompilerKind)
  unfolding read_kind
  run_on (fs, none) = (fs, none)
  run_on (fs, some (dir, src)) =
      let (fs', out) = system.run fs (codes "-E" ∷ src ∷ []) none in
      read_kind (system.drop_temp fs' dir, out)

  -- `none` is an error, `some none` an unknown compiler.
  unfoldable pub detect_compiler_kind : Fs → Fs × Option (Option CompilerKind)
  unfolding run_on
  detect_compiler_kind fs = run_on (write_temp_file system fs (codes "testfile.c") test_program)

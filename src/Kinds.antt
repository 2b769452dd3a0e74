-- ===== src/Kinds.antt =====
-- `CompilerKind` of src/compiler/compiler.rs: the choice between gcc, clang and MSVC.
pub mod Detect
pub mod Detected
pub mod Info
pub mod Tools
mod Tests
use sccache.Prelude.{
  ℕ, Text, text_eq, codes, List, [], ◌∷◌, ◌≡◌, ◌≢◌, refl, sym, ◌∙◌, ap, subst, Option, none, some,
  Bool, true, false, All, ne_of_text_eq,
}
use sccache.Fs.{Fs}
use sccache.Compiler.{
  ParsedArguments, CompilerArguments, ok, cannot_cache, CompilerKind, gcc, clang, msvc, Outputs,
}
use sccache.Compiler.CachedCompile.{Output, Cacheable, output_paths}
use sccache.Compiler.Objects.{DistinctPaths}
use sccache.Compiler.Kept.{PlainOutputs}
use sccache.Compiler.Process.{System}
use sccache.Cache.{Bytes}
use sccache.Gcc
use sccache.Gcc.{conclude, LoopEnd, finished, rejected, no_fuel, parse_loop, new_parser, outputs_of}
use sccache.Gcc.Accepted as GccAccepted
use sccache.Gcc.Commands as GccCommands
use sccache.Gcc.Commands.{Command, run, fail}
use sccache.Clang
use sccache.Clang.{cacheable}
use sccache.Msvc
use sccache.Msvc.Accepted as MsvcAccepted
use sccache.Msvc.Commands as MsvcCommands

-- `CompilerKind::parse_arguments`; the bounds are those of gcc's parser.
unfoldable pub parse_arguments :
    CompilerKind → (Text → Option Text) → Text → ℕ → ℕ → List Text → Option CompilerArguments
parse_arguments gcc read cwd m n args =
    Gcc.parse_arguments Gcc.argument_takes_value read cwd m n args
parse_arguments clang read cwd m n args =
    Gcc.parse_arguments Clang.argument_takes_value read cwd m n args
parse_arguments (msvc includes_prefix) read cwd m n args = some (Msvc.parse_arguments args)

-- What `gcc::compile` does with its command.
unfoldable pub run_command : System → Fs → Bytes → Command → Fs × Option (Cacheable × Output)
run_command system fs preprocessed (run args) = cacheable (system.run fs args (some preprocessed))
run_command system fs preprocessed (fail message) = (fs, none)

-- `CompilerKind::compile`
unfoldable pub compile :
    CompilerKind → System → ParsedArguments → Text → Fs → Bytes → Fs × Option (Cacheable × Output)
unfolding run_command
compile gcc system p cwd fs preprocessed =
    run_command system fs preprocessed (GccCommands.compile p)
compile clang system p cwd fs preprocessed = Clang.compile system p fs preprocessed
compile (msvc includes_prefix) system p cwd fs preprocessed =
    MsvcCommands.compile system p cwd fs preprocessed

-- One output, or two with the names `obj` and another.
data Shape : Outputs → Type 0 where
  object : (o : Text) → Shape ((codes "obj", o) ∷ [])
  dwarf : (o d : Text) → Shape ((codes "obj", o) ∷ (codes "dwo", d) ∷ [])
  debug : (o d : Text) → Shape ((codes "obj", o) ∷ (codes "pdb", d) ∷ [])

outputs_of-Shape : (o : Text) (b : Bool) → Shape (outputs_of o b)
unfolding outputs_of
outputs_of-Shape o true = dwarf o _
outputs_of-Shape o false = object o

msvc_outputs_of-Shape :
    (o : Text) (b : Bool) (pdb : Option Text) (outputs : Outputs)
    → Msvc.outputs_of o b pdb ≡ some outputs
    → Shape outputs
unfolding Msvc.outputs_of
msvc_outputs_of-Shape o false pdb outputs h = subst Shape (some_inj h) (object o)
  where
    some_inj : {x y : Outputs} → some x ≡ some y → x ≡ y
    some_inj q = cc
msvc_outputs_of-Shape o true none outputs h = absurd (no_outputs h)
  where
    no_outputs : ◌≡◌ {A = Option Outputs} none (some outputs) → ⊥
    no_outputs q = cc
msvc_outputs_of-Shape o true (some pdb) outputs h = subst Shape (some_inj h) (debug o pdb)
  where
    some_inj : {x y : Outputs} → some x ≡ some y → x ≡ y
    some_inj q = cc

ok_inj :
    {a b : ParsedArguments} → ◌≡◌ {A = Option CompilerArguments} (some (ok a)) (some (ok b)) → a ≡ b
ok_inj h = cc

given : {x y : CompilerArguments} → some x ≡ some y → x ≡ y
given h = cc

gcc-Shape :
    (takes_value : Text → Bool) (read : Text → Option Text) (cwd : Text) (m : ℕ) (l : LoopEnd)
    (a : ParsedArguments)
    → conclude takes_value read cwd m l ≡ some (ok a)
    → Shape a.outputs
unfolding conclude
gcc-Shape takes_value read cwd m (finished q) a h =
    let f = GccAccepted.finish-Finished q a (given h) in
    subst Shape (sym f.outputs_eq) (outputs_of-Shape f.object q.split_dwarf)
gcc-Shape takes_value read cwd m rejected a h = absurd (refused h)
  where
    refused : some cannot_cache ≡ some (ok a) → ⊥
    refused q = cc
gcc-Shape takes_value read cwd m no_fuel a h = absurd (no_answer h)
  where
    no_answer : ◌≡◌ {A = Option CompilerArguments} none (some (ok a)) → ⊥
    no_answer q = cc

msvc-Shape :
    (l : Option Msvc.Parser) (a : ParsedArguments) → Msvc.conclude l ≡ ok a → Shape a.outputs
unfolding Msvc.conclude
msvc-Shape none a h = absurd (refused h)
  where
    refused : cannot_cache ≡ ok a → ⊥
    refused q = cc
msvc-Shape (some q) a h =
    let f = MsvcAccepted.finish-Finished q a h in
    msvc_outputs_of-Shape f.object q.debug_info q.pdb a.outputs f.outputs_eq

parse_arguments-Shape :
    (kind : CompilerKind) (read : Text → Option Text) (cwd : Text) (m n : ℕ) (args : List Text)
    (a : ParsedArguments)
    → parse_arguments kind read cwd m n args ≡ some (ok a)
    → Shape a.outputs
unfolding parse_arguments Gcc.parse_arguments Msvc.parse_arguments
parse_arguments-Shape gcc read cwd m n args a h =
    gcc-Shape Gcc.argument_takes_value read cwd m _ a h
parse_arguments-Shape clang read cwd m n args a h =
    gcc-Shape Clang.argument_takes_value read cwd m _ a h
parse_arguments-Shape (msvc includes_prefix) read cwd m n args a h = msvc-Shape _ a (given h)

Shape-PlainOutputs :
    (cwd : Text) (outputs : Outputs)
    → Shape outputs
    → DistinctPaths (output_paths cwd outputs)
    → PlainOutputs (output_paths cwd outputs)
unfolding output_paths text_eq
Shape-PlainOutputs cwd _ (object o) d = record {
  names = (tt, tt);
  no_stdout = (ne_of_text_eq _ _ refl, tt);
  no_stderr = (ne_of_text_eq _ _ refl, tt);
  paths_differ = d;
}
Shape-PlainOutputs cwd _ (dwarf o x) d = record {
  names = ((ne_of_text_eq _ _ refl, tt), (tt, tt));
  no_stdout = (ne_of_text_eq _ _ refl, (ne_of_text_eq _ _ refl, tt));
  no_stderr = (ne_of_text_eq _ _ refl, (ne_of_text_eq _ _ refl, tt));
  paths_differ = d;
}
Shape-PlainOutputs cwd _ (debug o x) d = record {
  names = ((ne_of_text_eq _ _ refl, tt), (tt, tt));
  no_stdout = (ne_of_text_eq _ _ refl, (ne_of_text_eq _ _ refl, tt));
  no_stderr = (ne_of_text_eq _ _ refl, (ne_of_text_eq _ _ refl, tt));
  paths_differ = d;
}

-- The outputs of a command line that a parser accepts, whichever the compiler, have distinct names,
-- none of them that of a stream of the compiler, if their paths are distinct.
pub parse_arguments-PlainOutputs :
    (kind : CompilerKind) (read : Text → Option Text) (cwd : Text) (m n : ℕ) (args : List Text)
    (a : ParsedArguments)
    → parse_arguments kind read cwd m n args ≡ some (ok a)
    → DistinctPaths (output_paths cwd a.outputs)
    → PlainOutputs (output_paths cwd a.outputs)
parse_arguments-PlainOutputs kind read cwd m n args a h d =
    Shape-PlainOutputs cwd a.outputs (parse_arguments-Shape kind read cwd m n args a h) d

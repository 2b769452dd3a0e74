-- ===== src/Kinds/Tools.antt =====
-- `CompilerKind::preprocess` of src/compiler/compiler.rs, and what `get_cached_or_compile` uses of a
-- compiler.
use sccache.Prelude.{ℕ, Text, Option, none, Bool}
use sccache.Fs.{Fs}
use sccache.Compiler.{ParsedArguments, CompilerKind, gcc, clang, msvc}
use sccache.Compiler.CachedCompile.{Output, Toolchain}
use sccache.Compiler.Process.{System}
use sccache.Cache.{Bytes}
use sccache.Gcc.Commands as GccCommands
use sccache.Msvc.Preprocess as MsvcPreprocess
use sccache.Kinds
use sccache.Kinds.Info.{Compiler}

module _ (system : System) (decode : Bytes → Option Text) (normpath : Text → Text)
    (is_space : ℕ → Bool) where
  unfoldable pub preprocess : CompilerKind → ParsedArguments → Text → Fs → Fs × Option Output
  preprocess gcc p cwd fs = system.run fs (GccCommands.preprocess p) none
  preprocess clang p cwd fs = system.run fs (GccCommands.preprocess p) none
  preprocess (msvc includes_prefix) p cwd fs =
      MsvcPreprocess.preprocess system decode normpath is_space includes_prefix cwd p fs

  -- The compiler of a call of `get_cached_or_compile`.
  unfoldable pub toolchain : Compiler → ParsedArguments → Text → Toolchain
  unfolding preprocess
  toolchain c p cwd = record {
    digest = c.digest;
    preprocess = λ fs. preprocess c.kind p cwd fs;
    compile = λ fs bytes. Kinds.compile c.kind system p cwd fs bytes;
  }

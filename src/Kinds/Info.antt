-- ===== src/Kinds/Info.antt =====
-- src/compiler/compiler.rs: what the server keeps of a compiler, and how it learns it. `sha1` stands
-- for the digest of the bytes read, in hexadecimal.
use sccache.Prelude.{ℕ, Text, Option, none, some}
use sccache.Fs.{Fs, done, fails, metadata, open_file}
use sccache.Compiler.{CompilerKind}
use sccache.Compiler.Process.{System}
use sccache.Kinds.Detect.{detect_compiler_kind}
use sccache.Cache.{Bytes}

-- `struct Compiler`
pub record Compiler : Type 0 where
  pub executable : Text
  pub mtime : ℕ
  pub digest : Text
  pub kind : CompilerKind

module _ (sha1 : Bytes → Text) where
  -- `Compiler::new`: the metadata, then the contents; `none` is an error.
  unfoldable pub new : Fs → Text → CompilerKind → Fs × Option Compiler
  new fs executable kind = elim (metadata fs executable) [
    | none ↦ (fs, none)
    | some attr ↦ elim (open_file fs executable) [
      | fails f ↦ (f, none)
      | done bytes f ↦ (
        f,
        some (record {
          executable = executable;
          mtime = attr.mtime;
          digest = sha1 bytes;
          kind = kind;
        }),
      )
    ]
  ]

  -- An unknown compiler and a detection that fails are both errors.
  unfoldable pub with_kind : Text → Fs × Option (Option CompilerKind) → Fs × Option Compiler
  unfolding new
  with_kind executable (fs, some (some kind)) = new fs executable kind
  with_kind executable (fs, some none) = (fs, none)
  with_kind executable (fs, none) = (fs, none)

  unfoldable pub get_compiler_info :
      System → (Bytes → Option Text) → (Bytes → Option Text) → Fs → Text → Fs × Option Compiler
  unfolding with_kind
  get_compiler_info system utf8 decode fs executable =
      with_kind executable (detect_compiler_kind system utf8 decode fs)

-- ===== src/Server/Known.antt =====
-- What `compiler_info` of src/server.rs remembers of a compiler, from one request to the next.
use sccache.Prelude.{
  Text, text_eq_refl, List, ◌∷◌, ◌≡◌, refl, ap, ◌∙◌, Option, none, some, Option-cases, inl, inr,
  ◌⊎◌, Bool-cases, subst, if◌then◌else◌, ◌==◌,
}
use sccache.Fs.{Fs, File, done, fails, read, stat, metadata, open_file}
use sccache.Lru.{find, erase}
use sccache.Compiler.{CompilerKind}
use sccache.Compiler.Process.{System}
use sccache.Cache.{Bytes}
use sccache.Kinds.Detect.{detect_compiler_kind}
use sccache.Kinds.Info.{Compiler, with_kind, get_compiler_info}
use sccache.Kinds.Info
use sccache.Server.Service.{Service, compiler_info, known_compiler, remember_compiler}

failed : {c : Compiler} → ◌≡◌ {A = Option Compiler} none (some c) → ⊥
failed h = cc

same_compiler : {b c : Compiler} → some b ≡ some c → b ≡ c
same_compiler h = cc

-- What `get_compiler_info` learns is what the file was when it was looked at.
pub record Learned (sha1 : Bytes → Text) (fs : Fs) (path : Text) (c : Compiler) : Type 0 where
  attr : File
  metadata_eq : metadata fs path ≡ some attr
  executable_eq : c.executable ≡ path
  mtime_eq : c.mtime ≡ attr.mtime
  digest_eq : c.digest ≡ sha1 attr.contents

no_file : {attr : File} → ◌≡◌ {A = Option File} none (some attr) → ⊥
no_file h = cc

-- A file that has metadata is opened with its contents, or cannot be read.
opened :
    (fs : Fs) (path : Text) (attr : File)
    → metadata fs path ≡ some attr
    → (open_file fs path ≡ fails fs) ⊎ (open_file fs path ≡ done attr.contents fs)
unfolding metadata open_file
opened fs path attr h = elim (Bool-cases (fs.denied stat path)) [
  | inl hidden ↦ absurd (no_file (rw hidden at h))
  | inr shown ↦ elim (Bool-cases (fs.denied read path)) [
    | inl unreadable ↦ inl (rw unreadable refl)
    | inr readable ↦ inr (rw (readable, (rw shown at h)) refl)
  ]
]

new-Learned :
    (sha1 : Bytes → Text) (fs : Fs) (path : Text) (kind : CompilerKind) (c : Compiler)
    → (Info.new sha1 fs path kind).1 ≡ some c
    → Learned sha1 fs path c
unfolding Info.new
new-Learned sha1 fs path kind c h = elim (Option-cases (metadata fs path)) [
  | inl missing ↦ absurd (failed (rw (missing, Info.new) at h))
  | inr (attr, q) ↦ elim (opened fs path attr q) [
    | inl e ↦ absurd (failed (rw (q, e, Info.new) at h))
    | inr e ↦ subst (Learned sha1 fs path) (same_compiler (rw (q, e, Info.new) at h)) (record {
      attr = attr;
      metadata_eq = q;
      executable_eq = refl;
      mtime_eq = refl;
      digest_eq = refl;
    })
  ]
]

with_kind-Learned :
    (sha1 : Bytes → Text) (path : Text) (r : Fs × Option (Option CompilerKind)) (c : Compiler)
    → (with_kind sha1 path r).1 ≡ some c
    → Learned sha1 r.0 path c
unfolding with_kind
with_kind-Learned sha1 path (fs, none) c h = absurd (failed h)
with_kind-Learned sha1 path (fs, some none) c h = absurd (failed h)
with_kind-Learned sha1 path (fs, some (some kind)) c h = new-Learned sha1 fs path kind c h

find-remembered :
    {V : Type 0} (path : Text) (v : V) (es : List (Text × V)) → find path ((path, v) ∷ es) ≡ some v
unfolding find
find-remembered path v es = rw (text_eq_refl path) refl

compiler_info-remembered :
    (s : Service) (path : Text) (info : Option Compiler) (fs : Fs) (attr : File)
    → metadata fs path ≡ some attr
    → compiler_info (remember_compiler s path info) fs path ≡ known_compiler attr.mtime (some info)
unfolding compiler_info remember_compiler
compiler_info-remembered s path info fs attr h =
    rw (h, compiler_info, remember_compiler, find-remembered path info (erase path s.compilers))
      refl

-- A compiler that was learnt at a path is the answer for that path as long as the file there has the
-- modification time of the file that was hashed, and is asked for anew as soon as it has another;
-- its digest is that of the contents that were there.
pub compiler_info-get_compiler_info :
    (sha1 : Bytes → Text) (system : System) (utf8 decode : Bytes → Option Text) (fs fs2 : Fs)
    (path : Text) (c : Compiler) (s : Service) (now : File)
    → (get_compiler_info sha1 system utf8 decode fs path).1 ≡ some c
    → metadata fs2 path ≡ some now
    → (seen : File) × (metadata (detect_compiler_kind system utf8 decode fs).0 path ≡ some seen)
      × (c.digest ≡ sha1 seen.contents)
      × (compiler_info (remember_compiler s path (some c)) fs2 path
          ≡ (if seen.mtime == now.mtime then some (some c) else none))
unfolding get_compiler_info known_compiler
compiler_info-get_compiler_info sha1 system utf8 decode fs fs2 path c s now h q =
    let learned = with_kind-Learned sha1 path (detect_compiler_kind system utf8 decode fs) c h in
    (
      learned.attr,
      learned.metadata_eq,
      learned.digest_eq,
      compiler_info-remembered s path (some c) fs2 now q
          ∙ ap (λ m. if m == now.mtime then some (some c) else none) learned.mtime_eq,
    )

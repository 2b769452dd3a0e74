-- ===== src/Compiler/Kept.antt =====
-- What `put_streams` and `read_outputs` keep of a compilation in a cache entry.
use sccache.Prelude.{
  zero, suc, Text, text_eq, codes, [], ◌∷◌, ◌≡◌, ◌≢◌, refl, ◌∙◌, ap, sym, Option, none, true, All,
  All-map, All-zip, ne_of_text_eq,
}
use sccache.Fs.{Fs, File}
use sccache.Lru.{Absent, Distinct}
use sccache.Compiler.Types.{Outputs}
use sccache.Compiler.CachedCompile.{
  ExitStatus, exited, signalled, success, Output, bytes_or_empty, put_stream, put_streams,
}
use sccache.Compiler.Objects.{
  Stored, DistinctPaths, Read, get_object-put_stream_self, get_object-put_stream_ne,
}
use sccache.Cache.{CacheEntry, new_entry, get_object}

-- The outputs have one name each, none that of a stream, and one path each.
pub record PlainOutputs (paths : Outputs) : Type 0 where
  pub names : Distinct paths
  pub no_stdout : Absent (codes "stdout") paths
  pub no_stderr : Absent (codes "stderr") paths
  pub paths_differ : DistinctPaths paths

-- What an entry keeps of a compilation.
pub record Keeps (paths : Outputs) (entry : CacheEntry) (files : Text → Option File) (out : Output)
    : Type 0 where
  pub objects : All (Stored entry files) paths
  pub stdout_eq : bytes_or_empty (get_object entry (codes "stdout")) ≡ out.stdout
  pub stderr_eq : bytes_or_empty (get_object entry (codes "stderr")) ≡ out.stderr

stream_names : codes "stdout" ≢ codes "stderr"
unfolding text_eq
stream_names = ne_of_text_eq _ _ refl

nothing_in_new : (k : Text) → get_object new_entry k ≡ none
unfolding get_object
nothing_in_new k = refl

pub put_streams-Keeps :
    (paths : Outputs) (fs f : Fs) (entry : CacheEntry) (out : Output)
    → PlainOutputs paths
    → Read paths fs f new_entry entry
    → Keeps paths (put_streams entry out) fs.files out
unfolding put_streams
put_streams-Keeps paths fs f entry out plain r =
    let with_stdout = put_stream entry (codes "stdout") out.stdout in
    record {
      objects =
          All-map _ _ paths
            (λ o h. (
              h.0.0,
              get_object-put_stream_ne with_stdout (codes "stderr") o.0 out.stderr
                    (λ p. h.1.1 (sym p))
                  ∙ get_object-put_stream_ne entry (codes "stdout") o.0 out.stdout
                      (λ p. h.1.0 (sym p))
                  ∙ h.0.1,
              h.0.2,
            ))
            (All-zip _ _ paths r.stored (All-zip _ _ paths plain.no_stdout plain.no_stderr));
      stdout_eq =
          ap bytes_or_empty (
            get_object-put_stream_ne with_stdout (codes "stderr") (codes "stdout") out.stderr
              (λ p. stream_names (sym p)))
          ∙ get_object-put_stream_self entry (codes "stdout") out.stdout
              (r.others (codes "stdout") plain.no_stdout ∙ nothing_in_new (codes "stdout"));
      stderr_eq = get_object-put_stream_self with_stdout (codes "stderr") out.stderr (
          get_object-put_stream_ne entry (codes "stdout") (codes "stderr") out.stdout stream_names
          ∙ r.others (codes "stderr") plain.no_stderr
          ∙ nothing_in_new (codes "stderr"));
    }

-- A successful exit status is 0.
pub success_zero : (status : ExitStatus) → success status ≡ true → status ≡ exited 0
unfolding success
success_zero (exited zero) h = refl
success_zero (exited (suc n)) h = cc
success_zero signalled h = cc

pub none_yet : (paths : Outputs) → All (λ o. get_object new_entry o.0 ≡ none) paths
none_yet [] = tt
none_yet (o ∷ os) = (nothing_in_new o.0, none_yet os)

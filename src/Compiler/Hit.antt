-- ===== src/Compiler/Hit.antt =====
-- The headline of the cache: a hit gives back what the compilation gave.
use sccache.Prelude.{ℕ, Text, ◌≡◌, ◌∙◌, ap, sym, Option, some, true, All, All-map, All-zip}
use sccache.Fs.{Fs, File, Quiet}
use sccache.Compiler.Types.{ParsedArguments}
use sccache.Compiler.CachedCompile.{
  success, Output, CacheControl, default, PendingWrite, cache_hit, cache_miss, MissType, Toolchain,
  output_paths, after_restore, restored_output, restore, after_lookup, look_up, after_preprocess,
  get_cached_or_compile, finish_write, exited,
}
use sccache.Compiler.Objects.{Stored, write_outputs-Stored}
use sccache.Compiler.Kept.{PlainOutputs, Keeps}
use sccache.Compiler.Transparent.{get_cached_or_compile-Missed}
use sccache.Cache.{StorageLaws, Bytes, CacheEntry, get_object, Storage, Lookup, hit, cache_key}

-- Two disks have files with the same contents at the path.
abbrev pub SameContents : (Text → Option File) → (Text → Option File) → Text → Type 0
SameContents files files' path =
    (bytes : Bytes) × (m : ℕ) × (m' : ℕ) × (files path
      ≡ some (record { contents = bytes; mtime = m }))
    × (files' path ≡ some (record { contents = bytes; mtime = m' }))

Stored-SameContents :
    (entry : CacheEntry) (files files' : Text → Option File) (o : Text × Text)
    → Stored entry files o
    → Stored entry files' o
    → SameContents files files' o.1
Stored-SameContents entry files files' o (b, e, (m, f)) (b', e', (m', f')) =
    (b, m, m', f, f' ∙ (λ i. some (record { contents = same i; mtime = m' })))
  where
    some_inj : {x y : Bytes} → some x ≡ some y → x ≡ y
    some_inj h = cc

    same : b' ≡ b
    same = some_inj (sym e' ∙ e)

module _ (store : Storage) (laws : StorageLaws store) (tool : Toolchain) (sha1 : Text → Text)
    (env : Text → Option Text) (p : ParsedArguments) (cwd : Text)
    (plain : PlainOutputs (output_paths cwd p.outputs)) where
  restore_lem :
      (entry : CacheEntry) (fs1 fs2 : Fs) (s : store.State) (out : Output)
      → Keeps (output_paths cwd p.outputs) entry fs1.files out
      → out.status ≡ exited 0
      → Quiet fs2
      → (files : Text → Option File) × (restore store tool sha1 env p cwd entry fs2 s
          ≡ record { fs = record fs2 { files = files }; store = s; result = some (cache_hit, out) })
        × All (λ o. SameContents fs1.files files o.1) (output_paths cwd p.outputs)
        × ((q : Text) → All (λ o. ¬ (o.1 ≡ q)) (output_paths cwd p.outputs) → files q ≡ fs2.files q)
  unfolding restore after_restore
  restore_lem entry fs1 fs2 s out k zero q =
      let outputs = output_paths cwd p.outputs in
      let written =
        write_outputs-Stored entry outputs fs2 q
          (All-map _ (λ o. (bytes : Bytes) × (get_object entry o.0 ≡ some bytes)) outputs
            (λ o h. (h.0, h.1)) k.objects)
          plain.paths_differ in
      let same_out : restored_output store tool sha1 env p cwd entry ≡ out =
        λ i. record { status = sym zero i; stdout = k.stdout_eq i; stderr = k.stderr_eq i } in
      (
        written.0,
        ap
              (after_restore store tool sha1 env p cwd s
                (restored_output store tool sha1 env p cwd entry))
              written.1
            ∙ ap
                (λ (o : Output). record {
                  fs = record fs2 { files = written.0 };
                  store = s;
                  result = some (cache_hit, o);
                })
                same_out,
        All-map _ (λ o. SameContents fs1.files written.0 o.1) outputs
            (λ o h. Stored-SameContents entry fs1.files written.0 o h.0 h.1)
            (All-zip _ _ outputs k.objects written.2),
        written.3,
      )

  after_lookup-hit :
      (key : Text) (preprocessed : Bytes) (fs : Fs) (entry : CacheEntry) (x : store.State × Lookup)
      → x.1 ≡ hit entry
      → after_lookup store tool sha1 env p cwd key preprocessed fs x
        ≡ restore store tool sha1 env p cwd entry fs x.0
  unfolding after_lookup
  after_lookup-hit key preprocessed fs entry (s, l) h =
      ap (λ l'. after_lookup store tool sha1 env p cwd key preprocessed fs (s, l')) h

  -- A call whose key is stored restores what is stored.
  get_cached_or_compile-hit :
      (fs : Fs) (s : store.State) (pre : Output) (key : Text) (entry : CacheEntry)
      → (tool.preprocess fs).1 ≡ some pre
      → success pre.status ≡ true
      → cache_key sha1 tool.digest env p pre.stdout ≡ key
      → (store.get s key).1 ≡ hit entry
      → get_cached_or_compile store tool sha1 env p cwd default fs s
        ≡ restore store tool sha1 env p cwd entry (tool.preprocess fs).0 (store.get s key).0
  unfolding get_cached_or_compile after_preprocess look_up
  get_cached_or_compile-hit fs s pre key entry e good same found =
      rw (e, after_preprocess, good, same)
        (after_lookup-hit key pre.stdout (tool.preprocess fs).0 entry (store.get s key) found)

  -- A compilation that missed, and whose entry fits and was then stored, is not repeated: a later
  -- call whose preprocessor succeeds with the same output is a hit, whatever else is on the disk, if
  -- the disk has no fault and the outputs have distinct paths and names, none that of a stream. The
  -- hit returns the compiler's output, exit status included, every output file gets the contents
  -- that it had when the entry was made, and no other file changes after preprocessing.
  pub hit_after_miss :
      (control : CacheControl) (fs fs1 fs2 : Fs) (s s1 s2 : store.State) (pre pre2 out : Output)
      (kind : MissType) (w : PendingWrite)
      → (tool.preprocess fs).1 ≡ some pre
      → get_cached_or_compile store tool sha1 env p cwd control fs s
        ≡ record { fs = fs1; store = s1; result = some (cache_miss kind w, out) }
      → laws.Fits s2 w.key w.entry
      → (finish_write store tool sha1 env p cwd s2 w).1 ≡ true
      → (tool.preprocess fs2).1 ≡ some pre2
      → success pre2.status ≡ true
      → pre2.stdout ≡ pre.stdout
      → Quiet (tool.preprocess fs2).0
      → let s3 = (finish_write store tool sha1 env p cwd s2 w).0 in
        (files : Text → Option File) × (get_cached_or_compile store tool sha1 env p cwd default fs2
            s3
          ≡ record {
            fs = record (tool.preprocess fs2).0 { files = files };
            store = (store.get s3 w.key).0;
            result = some (cache_hit, out);
          })
        × All (λ o. SameContents fs1.files files o.1) (output_paths cwd p.outputs)
        × ((q : Text)
            → All (λ o. ¬ (o.1 ≡ q)) (output_paths cwd p.outputs)
            → files q ≡ (tool.preprocess fs2).0.files q)
  unfolding finish_write
  hit_after_miss control fs fs1 fs2 s s1 s2 pre pre2 out kind w e h fits stored e2 good same q =
      let missed =
        get_cached_or_compile-Missed store tool sha1 env p cwd plain control fs s pre e kind fs1 s1
          out w h in
      let s3 = (store.finish_put s2 w.key w.entry).0 in
      let after =
        restore_lem w.entry fs1 (tool.preprocess fs2).0 (store.get s3 w.key).0 out missed.keeps
          missed.succeeded q in
      let found = laws.get-finish_put s2 w.key w.entry fits stored in
      (
        after.0,
        get_cached_or_compile-hit fs2 s3 pre2 w.key w.entry e2 good
              (ap (cache_key sha1 tool.digest env p) same ∙ sym missed.key_eq) found
            ∙ after.1,
        after.2,
        after.3,
      )

-- ===== src/Compiler/Transparent.antt =====
-- A hit gives back what the compilation gave.
use sccache.Prelude.{
  Text, ◌≡◌, ◌≢◌, refl, ap, sym, subst, Option, none, some, true, Bool-cases, inl, inr,
}
use sccache.Fs.{Fs, Io, done, fails}
use sccache.Compiler.Types.{ParsedArguments, Outputs, output_file}
use sccache.Compiler.CachedCompile
use sccache.Compiler.CachedCompile.{
  ExitStatus, exited, signalled, success, Output, MissType, normal, forced_recache, Cacheable,
  yes_cacheable, no_cacheable, CacheControl, default, force_recache, PendingWrite, CompileResult,
  error, cache_hit, cache_miss, not_cacheable, compile_failed, Toolchain, Reply, output_paths,
  bytes_or_empty, write_outputs, read_outputs, put_stream, put_streams, store_result, store_entry,
  after_compile, after_restore, restored_output, restore, after_lookup, look_up, after_preprocess,
  get_cached_or_compile, finish_write,
}
use sccache.Compiler.Objects.{read_outputs-Read}
use sccache.Cache.{
  Bytes, CacheEntry, new_entry, Storage, Lookup, hit, miss, recache, failed, cache_key,
}
use sccache.Compiler.Kept.{PlainOutputs, Keeps, put_streams-Keeps, success_zero, none_yet}

module _ (store : Storage) (tool : Toolchain) (sha1 : Text → Text) (env : Text → Option Text)
    (p : ParsedArguments) (cwd : Text) (plain : PlainOutputs (output_paths cwd p.outputs)) where
  abbrev pub paths : Outputs
  paths = output_paths cwd p.outputs

  -- What a miss says of the compilation: it succeeded, and the entry keeps it, under the key.
  pub record Missed (w : PendingWrite) (out : Output) (fs : Fs) (preprocessed : Bytes)
      : Type 0 where
    pub keeps : Keeps paths w.entry fs.files out
    pub succeeded : out.status ≡ exited 0
    pub key_eq : w.key ≡ cache_key sha1 tool.digest env p preprocessed

  -- The parts of a reply that is a miss.
  miss_inj :
      {k k' : MissType} {w w' : PendingWrite} {out out' : Output}
      → ◌≡◌ {A = Option (CompileResult × Output)}
          (some (cache_miss k w, out))
          (some (cache_miss k' w', out'))
      → (w ≡ w') × (out ≡ out')
  miss_inj h = (cc, cc)

  not_miss :
      {k : MissType} {w : PendingWrite} {out : Output}
      → ◌≡◌ {A = Option (CompileResult × Output)} none (some (cache_miss k w, out))
      → ⊥
  not_miss h = cc

  store_entry-Missed :
      (kind k : MissType) (fs fs' : Fs) (s s' : store.State) (out out' : Output)
      (preprocessed : Bytes) (w : PendingWrite) (o : Io CacheEntry)
      → success out.status ≡ true
      → read_outputs paths fs new_entry ≡ o
      → store_entry store tool sha1 env p cwd kind
          (cache_key sha1 tool.digest env p preprocessed)
          s
          out
          o
        ≡ record { fs = fs'; store = s'; result = some (cache_miss k w, out') }
      → Missed w out' fs' preprocessed
  unfolding store_entry
  store_entry-Missed kind k fs fs' s s' out out' preprocessed w (fails f) ok e h =
      absurd (not_miss (ap (λ (r : Reply store.State). r.result) h))
  store_entry-Missed kind k fs fs' s s' out out' preprocessed w (done entry f) ok e h =
      let parts = miss_inj (ap (λ (r : Reply store.State). r.result) h) in
      let r = read_outputs-Read paths fs f new_entry entry e plain.names (none_yet paths) in
      let w0 : PendingWrite = record {
        key = cache_key sha1 tool.digest env p preprocessed;
        entry = put_streams entry out;
        object_file = output_file p;
      } in
      subst (λ g. Missed w out' g preprocessed) (ap (λ (x : Reply store.State). x.fs) h)
        (subst (λ v. Missed v out' f preprocessed) parts.0
          (subst (λ x. Missed w0 x f preprocessed) parts.1
            (record {
              keeps =
                  subst (λ (g : Fs). Keeps paths (put_streams entry out) g.files out)
                    (sym r.same_fs) (put_streams-Keeps paths fs f entry out plain r);
              succeeded = success_zero out.status ok;
              key_eq = refl;
            })))

  store_result-Missed :
      (kind k : MissType) (fs fs' : Fs) (s s' : store.State) (out out' : Output)
      (preprocessed : Bytes) (w : PendingWrite)
      → success out.status ≡ true
      → store_result store tool sha1 env p cwd kind
          (cache_key sha1 tool.digest env p preprocessed)
          fs
          s
          out
        ≡ record { fs = fs'; store = s'; result = some (cache_miss k w, out') }
      → Missed w out' fs' preprocessed
  unfolding store_result
  store_result-Missed kind k fs fs' s s' out out' preprocessed w ok h =
      let key = cache_key sha1 tool.digest env p preprocessed in
      elim (Bool-cases (store.start_put s key)) [
        | inl started ↦
            store_entry-Missed kind k fs fs' s s' out out' preprocessed w
              (read_outputs paths fs new_entry) ok refl (rw (started, store_result) at h)
        | inr refused ↦
            absurd (
              not_miss (ap (λ (r : Reply store.State). r.result) (rw (refused, store_result) at h)))
      ]

  -- No result but a miss is a miss.
  not_other :
      {r : CompileResult} {k : MissType} {w : PendingWrite} {o out : Output}
      → r ≢ cache_miss k w
      → ◌≡◌ {A = Option (CompileResult × Output)} (some (r, o)) (some (cache_miss k w, out))
      → ⊥
  not_other ne h = ne (cc)

  abbrev pub Misses : Reply store.State → Bytes → Type 0
  Misses r preprocessed =
      (k : MissType) (fs' : Fs) (s' : store.State) (out' : Output) (w : PendingWrite)
      → r ≡ record { fs = fs'; store = s'; result = some (cache_miss k w, out') }
      → Missed w out' fs' preprocessed

  after_compile-Missed :
      (kind : MissType) (fs : Fs) (s : store.State) (o : Option (Cacheable × Output))
      (preprocessed : Bytes)
      → Misses
          (after_compile store tool sha1 env p cwd kind
            (cache_key sha1 tool.digest env p preprocessed)
            s
            fs
            o)
          preprocessed
  unfolding after_compile
  after_compile-Missed kind fs s none preprocessed k fs' s' out' w h =
      absurd (not_miss (ap (λ (r : Reply store.State). r.result) h))
  after_compile-Missed kind fs s (some (c, out)) preprocessed k fs' s' out' w h =
      elim (Bool-cases (success out.status)) [
        | inr bad ↦ absurd (
            not_other (λ e. cc)
              (ap (λ (r : Reply store.State). r.result) (rw (bad, after_compile) at h)))
        | inl good ↦ by_cacheable c good (rw (good, after_compile) at h)
      ]
    where
      key : Text
      key = cache_key sha1 tool.digest env p preprocessed

      by_cacheable :
          (x : Cacheable)
          → success out.status ≡ true
          → ◌≡◌ {A = Reply store.State}
              (elim x [
                | no_cacheable ↦ record { fs = fs; store = s; result = some (not_cacheable, out) }
                | yes_cacheable ↦ store_result store tool sha1 env p cwd kind key fs s out
              ])
              (record { fs = fs'; store = s'; result = some (cache_miss k w, out') })
          → Missed w out' fs' preprocessed
      by_cacheable no_cacheable good g =
          absurd (not_other (λ e. cc) (ap (λ (r : Reply store.State). r.result) g))
      by_cacheable yes_cacheable good g =
          store_result-Missed kind k fs fs' s s' out out' preprocessed w good g

  after_restore-Misses :
      (s : store.State) (out : Output) (o : Io (Unit {0})) (preprocessed : Bytes)
      → Misses (after_restore store tool sha1 env p cwd s out o) preprocessed
  unfolding after_restore
  after_restore-Misses s out (fails f) preprocessed k fs' s' out' w h =
      absurd (not_miss (ap (λ (r : Reply store.State). r.result) h))
  after_restore-Misses s out (done _ f) preprocessed k fs' s' out' w h =
      absurd (not_other (λ e. cc) (ap (λ (r : Reply store.State). r.result) h))

  after_lookup-Misses :
      (fs : Fs) (preprocessed : Bytes) (s : store.State) (l : Lookup)
      → Misses
          (after_lookup store tool sha1 env p cwd
            (cache_key sha1 tool.digest env p preprocessed)
            preprocessed
            fs
            (s, l))
          preprocessed
  unfolding after_lookup restore CachedCompile.compile
  after_lookup-Misses fs preprocessed s (hit entry) k fs' s' out' w h =
      after_restore-Misses s _ _ preprocessed k fs' s' out' w h
  after_lookup-Misses fs preprocessed s miss k fs' s' out' w h =
      after_compile-Missed normal _ s _ preprocessed k fs' s' out' w h
  after_lookup-Misses fs preprocessed s recache k fs' s' out' w h =
      after_compile-Missed forced_recache _ s _ preprocessed k fs' s' out' w h
  after_lookup-Misses fs preprocessed s failed k fs' s' out' w h =
      absurd (not_miss (ap (λ (r : Reply store.State). r.result) h))

  -- A call that ends in a miss has compiled, and its entry keeps the compilation.
  pub get_cached_or_compile-Missed :
      (control : CacheControl) (fs : Fs) (s : store.State) (pre : Output)
      → (tool.preprocess fs).1 ≡ some pre
      → Misses (get_cached_or_compile store tool sha1 env p cwd control fs s) pre.stdout
  unfolding get_cached_or_compile after_preprocess
  get_cached_or_compile-Missed control fs s pre e k fs' s' out' w h =
      elim (Bool-cases (success pre.status)) [
        | inr bad ↦ absurd (
            not_other (λ x. cc)
              (ap (λ (r : Reply store.State). r.result) (rw (e, after_preprocess, bad) at h)))
        | inl good ↦
            let l =
              look_up store tool sha1 env p cwd control s
                (cache_key sha1 tool.digest env p pre.stdout) in
            after_lookup-Misses (tool.preprocess fs).0 pre.stdout l.0 l.1 k fs' s' out' w
              (rw (e, after_preprocess, good) at h)
      ]

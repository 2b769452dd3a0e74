-- ===== src/Compiler/CachedCompile.antt =====
-- `get_cached_or_compile` and `compile` of src/compiler/compiler.rs.
use sccache.Prelude.{
  ℕ, zero, suc, Text, codes, [], ◌∷◌, Option, none, some, Bool, true, false, not, if◌then◌else◌,
  is_nonempty,
}
use sccache.FilePath.{join}
use sccache.Fs.{Fs, Io, done, fails, write_file, open_file}
use sccache.Compiler.Types.{ParsedArguments, Outputs, output_file}
use sccache.Cache.{
  Bytes, CacheEntry, new_entry, put_object, get_object, Storage, Lookup, hit, miss, recache, failed,
  cache_key,
}

-- `process::ExitStatus` and `process::Output`
pub data ExitStatus : Type 0 where
  exited : ℕ → ExitStatus
  signalled : ExitStatus

unfoldable pub success : ExitStatus → Bool
success (exited zero) = true
success (exited (suc n)) = false
success signalled = false

pub record Output : Type 0 where
  pub status : ExitStatus
  pub stdout : Bytes
  pub stderr : Bytes

pub data MissType : Type 0 where
  normal forced_recache : MissType

pub data Cacheable : Type 0 where
  yes_cacheable no_cacheable : Cacheable

pub data CacheControl : Type 0 where
  default force_recache : CacheControl

-- The future that stores an entry: it has run when `finish_put` has been called with these.
pub record PendingWrite : Type 0 where
  pub key : Text
  pub entry : CacheEntry
  pub object_file : Text

-- The times that were measured are left out.
pub data CompileResult : Type 0 where
  error : CompileResult
  cache_hit : CompileResult
  cache_miss : MissType → PendingWrite → CompileResult
  not_cacheable : CompileResult
  compile_failed : CompileResult

-- What a compiler does when it is run: `preprocess` and `compile` of `CompilerKind`. They fail if
-- the process cannot be run; `digest` is that of the executable.
pub record Toolchain : Type 0 where
  pub digest : Text
  pub preprocess : Fs → Fs × Option Output
  pub compile : Fs → Bytes → Fs × Option (Cacheable × Output)

-- The world after a call, and its result; `none` is an error.
pub record Reply (S : Type 0) : Type 0 where
  pub fs : Fs
  pub store : S
  pub result : Option (CompileResult × Output)

-- The `outputs` with their paths made absolute.
unfoldable pub output_paths : Text → Outputs → Outputs
unfolding join
output_paths cwd [] = []
output_paths cwd ((k, path) ∷ outputs) = (k, join cwd path) ∷ output_paths cwd outputs

abbrev pub bytes_or_empty : Option Bytes → Bytes
bytes_or_empty none = []
bytes_or_empty (some bs) = bs

-- `File::create`, then `get_object` into it: without the object the file is left empty.
unfoldable pub write_object : Fs → Text → Option Bytes → Io (Unit {0})
write_object fs path none = elim (write_file fs path []) [ done _ f ↦ fails f | fails f ↦ fails f ]
write_object fs path (some bytes) = write_file fs path bytes

-- The loop that writes the outputs of a hit.
unfoldable pub write_outputs : CacheEntry → Outputs → Fs → Io (Unit {0})
write_outputs entry [] fs = done tt fs
write_outputs entry ((k, path) ∷ outputs) fs = elim (write_object fs path (get_object entry k)) [
  | fails f ↦ fails f
  | done _ f ↦ write_outputs entry outputs f
]

-- The loop that puts the outputs of a compilation into an entry.
unfoldable pub read_outputs : Outputs → Fs → CacheEntry → Io CacheEntry
read_outputs [] fs entry = done entry fs
read_outputs ((k, path) ∷ outputs) fs entry = elim (open_file fs path) [
  | fails f ↦ fails f
  | done bytes f ↦ read_outputs outputs f (put_object entry k bytes)
]

-- `stdout` and `stderr` are put only if there is something in them.
unfoldable pub put_stream : CacheEntry → Text → Bytes → CacheEntry
unfolding put_object
put_stream entry name bytes = if is_nonempty bytes then put_object entry name bytes else entry

unfoldable pub put_streams : CacheEntry → Output → CacheEntry
unfolding put_stream
put_streams entry out =
    put_stream (put_stream entry (codes "stdout") out.stdout) (codes "stderr") out.stderr

module _ (store : Storage) (tool : Toolchain) (sha1 : Text → Text) (env : Text → Option Text)
    (p : ParsedArguments) (cwd : Text) where
  -- The entry with the outputs gets the streams, and waits to be stored.
  unfoldable pub store_entry :
      MissType → Text → store.State → Output → Io CacheEntry → Reply store.State
  store_entry kind key s out (fails f) = record { fs = f; store = s; result = none }
  store_entry kind key s out (done entry f) = record {
    fs = f;
    store = s;
    result = some (
      cache_miss kind
          (record { key = key; entry = put_streams entry out; object_file = output_file p }),
      out,
    );
  }

  -- From the `match` on the entry that `start_put` gives.
  unfoldable pub store_result : MissType → Text → Fs → store.State → Output → Reply store.State
  store_result kind key fs s out =
      if not (store.start_put s key)
      then record { fs = fs; store = s; result = none }
      else store_entry kind key s out (read_outputs (output_paths cwd p.outputs) fs new_entry)

  unfoldable pub after_compile :
      MissType → Text → store.State → Fs → Option (Cacheable × Output) → Reply store.State
  after_compile kind key s fs none = record { fs = fs; store = s; result = none }
  after_compile kind key s fs (some (cacheable, out)) =
      if not (success out.status)
      then record { fs = fs; store = s; result = some (compile_failed, out) }
      else elim cacheable [
        | no_cacheable ↦ record { fs = fs; store = s; result = some (not_cacheable, out) }
        | yes_cacheable ↦ store_result kind key fs s out
      ]

  -- `Compiler::compile`
  unfoldable pub compile : MissType → Text → Bytes → Fs → store.State → Reply store.State
  compile kind key preprocessed fs s =
      let (fs', compiled) = tool.compile fs preprocessed in after_compile kind key s fs' compiled

  unfoldable pub after_restore : store.State → Output → Io (Unit {0}) → Reply store.State
  after_restore s out (fails f) = record { fs = f; store = s; result = none }
  after_restore s out (done _ f) = record { fs = f; store = s; result = some (cache_hit, out) }

  -- The streams of a hit, with exit status 0.
  abbrev pub restored_output : CacheEntry → Output
  restored_output entry = record {
    status = exited 0;
    stdout = bytes_or_empty (get_object entry (codes "stdout"));
    stderr = bytes_or_empty (get_object entry (codes "stderr"));
  }

  -- The outputs of a hit are written.
  unfoldable pub restore : CacheEntry → Fs → store.State → Reply store.State
  restore entry fs s =
      after_restore s (restored_output entry) (write_outputs entry (output_paths cwd p.outputs) fs)

  unfoldable pub after_lookup : Text → Bytes → Fs → store.State × Lookup → Reply store.State
  after_lookup key preprocessed fs (s, hit entry) = restore entry fs s
  after_lookup key preprocessed fs (s, miss) = compile normal key preprocessed fs s
  after_lookup key preprocessed fs (s, recache) = compile forced_recache key preprocessed fs s
  after_lookup key preprocessed fs (s, failed) = record { fs = fs; store = s; result = none }

  -- `ForceRecache` leaves the store unasked.
  unfoldable pub look_up : CacheControl → store.State → Text → store.State × Lookup
  look_up force_recache s key = (s, recache)
  look_up default s key = store.get s key

  unfoldable pub after_preprocess :
      CacheControl → store.State → Fs → Option Output → Reply store.State
  after_preprocess control s fs none = record { fs = fs; store = s; result = none }
  after_preprocess control s fs (some out) =
      if not (success out.status)
      then record { fs = fs; store = s; result = some (error, record out { stdout = [] }) }
      else let key = cache_key sha1 tool.digest env p out.stdout in
        after_lookup key out.stdout fs (look_up control s key)

  unfoldable pub get_cached_or_compile : CacheControl → Fs → store.State → Reply store.State
  get_cached_or_compile control fs s =
      let (fs', preprocessed) = tool.preprocess fs in after_preprocess control s fs' preprocessed

  -- The future of a miss: `finish_put`.
  unfoldable pub finish_write : store.State → PendingWrite → store.State × Bool
  finish_write s w = store.finish_put s w.key w.entry

-- ===== src/Compiler/Tests.antt =====
-- The headline of the cache at a concrete store and compiler, and runs of the code.
use sccache.Prelude.{
  Text, text_eq, text_eq_refl, codes, List, [], ◌∷◌, ◌≡◌, refl, Option, none, some, true, false,
  All, ne_of_text_eq, contains,
}
use sccache.FilePath.{join, is_absolute, with_separator, ends_in_slash}
use sccache.FilePath.Names.{file_name}
use sccache.Fs.{Fs, File, write_file, open_file, update}
use sccache.Lru.{find}
use sccache.Compiler.{ParsedArguments, output_file, get_output}
use sccache.Compiler.CachedCompile.{
  exited, Output, default, PendingWrite, cache_hit, cache_miss, normal, Toolchain, yes_cacheable,
  output_paths, get_cached_or_compile, finish_write, success, after_preprocess, after_lookup,
  look_up, compile, after_compile, store_result, store_entry, read_outputs, put_streams, put_stream,
  restore, after_restore, write_outputs,
}
use sccache.Compiler.Kept.{PlainOutputs}
use sccache.Compiler.Hit.{SameContents}
use sccache.Compiler.Hit
use sccache.Cache.{
  StorageLaws, CacheEntry, Storage, Lookup, hit, miss, cache_key, hash_key, put_object, get_object,
}

program : Unit {0}
unfolding text_eq contains join is_absolute with_separator ends_in_slash file_name write_file
    open_file find output_file get_output output_paths get_cached_or_compile finish_write success
    after_preprocess after_lookup look_up compile after_compile store_result store_entry
    read_outputs put_streams put_stream restore after_restore write_outputs cache_key hash_key
    put_object get_object
program = tt

abbrev lookup_of : Option CacheEntry → Lookup
lookup_of none = miss
lookup_of (some e) = hit e

-- A store that keeps everything.
abbrev memory : Storage
memory = record {
  State = List (Text × CacheEntry);
  get = λ s key. (s, lookup_of (find key s));
  start_put = λ s key. true;
  finish_put = λ s key entry. ((key, entry) ∷ s, true);
}

memory-StorageLaws : StorageLaws memory
unfolding find
memory-StorageLaws = record {
  Fits = λ s key entry. Unit {0};
  get-finish_put = λ s key entry fits h. rw (text_eq_refl key);
}

abbrev disk : Fs
disk = record { files = λ p. none; denied = λ call p. false; now = 7; partial = 0 }

abbrev object_file : Option File
object_file = some (record { contents = 1 ∷ 2 ∷ []; mtime = 8 })

abbrev preprocessed : Output
preprocessed = record { status = exited 0; stdout = codes "int x;"; stderr = [] }

abbrev compiled : Output
compiled = record { status = exited 0; stdout = []; stderr = codes "warning" }

-- A compiler that writes `/w/o.o`.
abbrev tool : Toolchain
tool = record {
  digest = codes "d";
  preprocess = λ fs. (fs, some preprocessed);
  compile = λ fs bytes. (
    record fs { files = update fs.files (codes "/w/o.o") object_file },
    some (yes_cacheable, compiled),
  );
}

abbrev no_env : Text → Option Text
no_env var = none

abbrev sha1 : Text → Text
sha1 t = t

abbrev args : ParsedArguments
args = record {
  input = codes "o.c";
  extension = codes "c";
  depfile = none;
  outputs = (codes "obj", codes "o.o") ∷ [];
  preprocessor_args = [];
  common_args = codes "-O" ∷ [];
}

abbrev stored_entry : CacheEntry
stored_entry = (codes "obj", 1 ∷ 2 ∷ []) ∷ (codes "stderr", codes "warning") ∷ []

abbrev pending : PendingWrite
pending = record { key = codes "d3-Oint x;"; entry = stored_entry; object_file = codes "o.o" }

abbrev compiled_disk : Fs
compiled_disk = record disk { files = update disk.files (codes "/w/o.o") object_file }

plain : PlainOutputs (output_paths (codes "/w") args.outputs)
unfolding program
plain = record {
  names = (tt, tt);
  no_stdout = (ne_of_text_eq _ _ refl, tt);
  no_stderr = (ne_of_text_eq _ _ refl, tt);
  paths_differ = (tt, tt);
}

run_miss :
    get_cached_or_compile memory tool sha1 no_env args (codes "/w") default disk []
    ≡ record { fs = compiled_disk; store = []; result = some (cache_miss normal pending, compiled) }
unfolding program
run_miss = refl

hit_after_miss_example :
    (files : Text → Option File) × (get_cached_or_compile memory tool sha1 no_env args
        (codes "/w")
        default
        disk
        ((pending.key, pending.entry) ∷ [])
      ≡ record {
        fs = record disk { files = files };
        store = (pending.key, pending.entry) ∷ [];
        result = some (cache_hit, compiled);
      })
    × All (λ o. SameContents compiled_disk.files files o.1) (output_paths (codes "/w") args.outputs)
    × ((q : Text)
        → All (λ o. ¬ (o.1 ≡ q)) (output_paths (codes "/w") args.outputs)
        → files q ≡ disk.files q)
unfolding program memory-StorageLaws
hit_after_miss_example =
    Hit.hit_after_miss memory memory-StorageLaws tool sha1 no_env args (codes "/w") plain default
      disk compiled_disk disk [] [] [] preprocessed preprocessed compiled normal pending refl
      run_miss tt refl refl refl refl (λ call p. refl)

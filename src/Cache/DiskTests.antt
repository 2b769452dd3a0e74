-- ===== src/Cache/DiskTests.antt =====
-- The disk cache at a concrete disk.
use sccache.Prelude.{
  text_eq, codes, List, [], ◌∷◌, ◌≡◌, refl, none, some, arith, starts_with, false,
}
use sccache.FilePath.{join, parent, is_absolute, with_separator, ends_in_slash, strip_prefix}
use sccache.Fs.{Fs, create_dir_all, write_file, metadata, remove_file, set_file_times, open_file}
use sccache.Lru.{LruCache, find, erase, total, make_room, use_entry}
use sccache.Lru.Listed.{listed, listed-LruLaws, pop_front}
use sccache.LruDiskCache.{
  Entry, measure, DiskCache, insert_bytes, insert_by, add_file, evict, evict_one, insert_entry,
  undo_insert, rel_path_of,
}
use sccache.LruDiskCache
use sccache.LruDiskCache.Facts.{Item, Represents, dropped, without}
use sccache.LruDiskCache.Refine.{spec_insert}
use sccache.Cache.Entry.{Bytes, CacheEntry}
use sccache.Cache.Store.{hit}
use sccache.Cache.Disk
use sccache.Cache.Disk.{make_key_path, value, finish_put, after_get, after_insert, read_entry}
use sccache.Cache.Persistence
use sccache.Cache.Persistence.{CanStore}
use sccache.Cache.FakeZip.{fake_zip}

program : Unit {0}
unfolding text_eq starts_with create_dir_all write_file metadata remove_file set_file_times
    open_file find erase total make_room use_entry pop_front join parent is_absolute with_separator
    ends_in_slash strip_prefix insert_bytes insert_by add_file evict evict_one insert_entry
    undo_insert rel_path_of LruDiskCache.get dropped without spec_insert make_key_path finish_put
    after_get after_insert read_entry Disk.get fake_zip
program = tt

abbrev L : LruCache Entry
L = listed measure

abbrev empty_disk : Fs
empty_disk = record { files = λ p. none; denied = λ call p. false; now = 7; partial = 0 }

abbrev empty_cache : DiskCache L
empty_cache = record { lru = record { limit = 25; items = [] }; root = codes "c"; fs = empty_disk }

abbrev entry : CacheEntry
entry = (codes "obj", 5 ∷ []) ∷ []

abbrev entry_bytes : Bytes
entry_bytes = 112 ∷ 99 ∷ 107 ∷ 0 ∷ 6 ∷ 0 ∷ []

key_path : make_key_path (codes "abcd") ≡ some (codes "a/b/abcd")
unfolding program
key_path = refl

can_store_entry : CanStore L (listed-LruLaws measure) fake_zip empty_cache (codes "abcd") entry
unfolding program
can_store_entry = record {
  items = [];
  represents = record {
    entries_eq = refl;
    on_disk = tt;
    distinct = tt;
    relative = tt;
    within = omega arith;
  };
  path = codes "a/b/abcd";
  bytes = entry_bytes;
  path_eq = refl;
  bytes_eq = refl;
  can = record {
    quiet = λ call p. refl;
    relative_key = refl;
    dir = codes "c/a/b";
    has_parent = refl;
    fits = omega arith;
    adds = omega arith;
  };
  stays = tt;
}

abbrev one_item : List Item
one_item = (codes "a/b/abcd", entry_bytes) ∷ []

get-finish_put_example :
    (c' : DiskCache L) × (c'' : DiskCache L) × (finish_put L fake_zip empty_cache
        (codes "abcd")
        entry
      ≡ value tt c')
    × Represents L c' one_item
    × (Disk.get L fake_zip c' (codes "abcd") ≡ value (hit entry) c'')
    × Represents L c'' one_item
unfolding program can_store_entry
get-finish_put_example =
    Persistence.get-finish_put L (listed-LruLaws measure) fake_zip empty_cache (codes "abcd") entry
      can_store_entry

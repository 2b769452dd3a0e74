-- ===== src/LruDiskCache/Tests.antt =====
-- The theorems of the disk cache at concrete caches, and runs of the code.
use sccache.Prelude.{
  ℕ, Text, List, [], ◌∷◌, ◌++◌, ◌≡◌, refl, none, some, true, false, codes, text_eq, ne_of_text_eq,
  arith, All, starts_with,
}
use sccache.Fs.{
  Fs, File, create_dir_all, write_file, metadata, remove_file, rename_file, copy_file,
  set_file_times, open_file, update,
}
use sccache.Lru.{find, erase, total, make_room, use_entry, LruLaws, is_some}
use sccache.Lru.Listed.{listed, listed-LruLaws, pop_front}
use sccache.FilePath.{join, parent, is_absolute, with_separator, ends_in_slash, strip_prefix}
use sccache.LruDiskCache.{
  Entry, measure, DiskCache, ok, err, file_not_in_cache, file_too_large, io, new, insert_bytes,
  insert_by, insert_file, get, add_file, evict, evict_one, insert_entry, undo_insert, init, load,
  then_load, get_all_files, contains_key, move_file, rel_path_of, size,
}
use sccache.LruDiskCache.Facts.{Item, Represents, dropped, without}
use sccache.LruDiskCache.Insert.{CanInsert}
use sccache.LruDiskCache.Refine
use sccache.LruDiskCache.Refine.{spec_insert}
use sccache.LruDiskCache.Read
use sccache.LruDiskCache.Stale
use sccache.LruDiskCache.Errors

program : Unit {0}
unfolding text_eq starts_with create_dir_all write_file metadata remove_file rename_file copy_file
    set_file_times open_file find erase total make_room use_entry pop_front join parent is_absolute
    with_separator ends_in_slash strip_prefix new insert_bytes insert_by insert_file get add_file
    evict evict_one insert_entry undo_insert init load then_load get_all_files contains_key
    move_file rel_path_of dropped without spec_insert
program = tt

abbrev disk : Fs
disk = record { files = λ p. none; denied = λ call p. false; now = 7; partial = 0 }

abbrev root : Text
root = codes "c"

abbrev L : sccache.Lru.LruCache Entry
L = listed measure

abbrev laws : LruLaws measure L
laws = listed-LruLaws measure

abbrev ten : List ℕ
ten = 1 ∷ 2 ∷ 3 ∷ 4 ∷ 5 ∷ 6 ∷ 7 ∷ 8 ∷ 9 ∷ 10 ∷ []

abbrev file_of : List ℕ → File
file_of bs = record { contents = bs; mtime = 7 }

-- Two files of ten bytes each in a cache of 25 bytes.
abbrev two : DiskCache L
two = record {
  lru = record {
    limit = 25;
    items = (codes "a", (codes "c/a", 10)) ∷ (codes "b", (codes "c/b", 10)) ∷ [];
  };
  root = root;
  fs = record disk {
    files =
        update (update disk.files (codes "c/a") (some (file_of ten))) (codes "c/b")
          (some (file_of ten));
  };
}

abbrev two_items : List Item
two_items = (codes "a", ten) ∷ (codes "b", ten) ∷ []

two-Represents : Represents L two two_items
unfolding program
two-Represents = record {
  entries_eq = refl;
  on_disk = ((7, refl), ((7, refl), tt));
  distinct = ((ne_of_text_eq _ _ refl, tt), (tt, tt));
  relative = (refl, (refl, tt));
  within = omega arith;
}

CanInsert-x : CanInsert L two (codes "x") ten
unfolding program
CanInsert-x = record {
  quiet = λ call p. refl;
  relative_key = refl;
  dir = codes "c";
  has_parent = refl;
  fits = omega arith;
  adds = omega arith;
}

CanInsert-a : CanInsert L two (codes "a") ten
unfolding program
CanInsert-a = record {
  quiet = λ call p. refl;
  relative_key = refl;
  dir = codes "c";
  has_parent = refl;
  fits = omega arith;
  adds = omega arith;
}

insert_bytes-Represents_example :
    (c' : DiskCache L) × (insert_bytes L two (codes "x") ten ≡ ok tt c')
    × Represents L c' (spec_insert 25 (codes "x") ten two_items)
    × (c'.root ≡ root)
    × (L.capacity c'.lru ≡ 25)
unfolding program
insert_bytes-Represents_example =
    Refine.insert_bytes-Represents L laws two (codes "x") ten two_items two-Represents CanInsert-x
      (ne_of_text_eq _ _ refl, tt)

insert_bytes_frame_example :
    (c' : DiskCache L) × (insert_bytes L two (codes "x") ten ≡ ok tt c')
    × All (λ it. c'.fs.files (join root it.0) ≡ none) (dropped 25 10 two_items)
    × ((q : Text)
        → ¬ (join root (codes "x") ≡ q)
        → All (λ it. ¬ (join root it.0 ≡ q)) (dropped 25 10 two_items)
        → c'.fs.files q ≡ two.fs.files q)
insert_bytes_frame_example =
    Refine.insert_bytes_frame L laws two (codes "x") ten two_items two-Represents CanInsert-x

insert_bytes_stale_example :
    (c' : DiskCache L) × (insert_bytes L two (codes "a") ten ≡ ok tt c')
    × (contains_key L c' (codes "a") ≡ true)
    × (c'.fs.files (join c'.root (codes "a")) ≡ none)
    × ((c'' : DiskCache L) × (get L c' (codes "a") ≡ err io c''))
unfolding program
insert_bytes_stale_example =
    Stale.insert_bytes_stale L laws two (codes "a") ten two_items two-Represents CanInsert-a
      {old = ten} refl

get-Represents_example :
    (c' : DiskCache L) × (get L two (codes "a") ≡ ok ten c')
    × Represents L c' (use_entry (codes "a") (some ten) two_items)
    × (c'.root ≡ root)
    × (L.capacity c'.lru ≡ 25)
unfolding program
get-Represents_example =
    Read.get-Represents L laws two (codes "a") ten two_items two-Represents (λ call p. refl) refl

get_absent_example :
    (c' : DiskCache L) × (get L two (codes "z") ≡ err file_not_in_cache c')
    × Represents L c' two_items
    × (c'.fs ≡ two.fs)
unfolding program
get_absent_example = Read.get_absent L laws two (codes "z") two_items two-Represents refl

insert_bytes_err_example : Errors.OnlyFileAt L (join root (codes "z")) two two
unfolding program
insert_bytes_err_example =
    Errors.insert_bytes_err L two (codes "z") (ten ++ ten ++ ten) file_too_large two refl

-- The tests of lib.rs: the oldest file goes, and the size stays within the limit.
evicts_oldest :
    (c : DiskCache L) × (insert_bytes L two (codes "x") ten ≡ ok tt c)
    × (contains_key L c (codes "a") ≡ false)
    × (c.fs.files (codes "c/a") ≡ none)
    × (size L c ≡ 20)
unfolding program size
evicts_oldest = (_, refl, refl, refl, refl)

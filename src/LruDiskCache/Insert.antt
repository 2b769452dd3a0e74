-- ===== src/LruDiskCache/Insert.antt =====
-- What `insert_bytes` does, over the abstract view.
use sccache.Prelude.{
  ℕ, suc, ◌+◌, ◌*◌, ◌≤◌, ◌<◌, Text, List, [], ◌∷◌, ◌++◌, ◌≡◌, ◌∙◌, ap, some, false, le→leb, u64_mod,
  length, arith,
}
use sccache.Fs.{write_file-Quiet, create_dir_all-Quiet, File, Quiet, update}
use sccache.Lru.{
  LruCache, LruLaws, total, make_room, erase, total-append, total-make_room-le, make_room_of_fits,
}
use sccache.FilePath.{join, is_absolute, parent}
use sccache.LruDiskCache.Defs.{
  Entry, measure, DiskCache, Outcome, ok, add_file, insert_entry, undo_insert, insert_by,
  insert_bytes, evict,
}
use sccache.LruDiskCache.Facts.{
  Item, bytes_len, entries, Represents, dropped, without, total-entries, erase-entries,
  entries-append, length-entries,
}
use sccache.LruDiskCache.Files.{write-HasFile, OnDisk-HasFile, total-erase-le}
use sccache.LruDiskCache.Evict.{evict_lem}

module _ (L : LruCache Entry) where
  -- The call runs where it is meant to: no fault, a relative key with a parent directory, room for
  -- the file at all, and sizes that a 64-bit word can add.
  pub record CanInsert (c : DiskCache L) (key : Text) (bytes : List ℕ) : Type 0 where
    pub quiet : Quiet c.fs
    pub relative_key : is_absolute key ≡ false
    pub dir : Text
    pub has_parent : parent (join c.root key) ≡ some dir
    pub fits : bytes_len bytes ≤ L.capacity c.lru
    pub adds : 2 * L.capacity c.lru < u64_mod

  abbrev pub new_file : DiskCache L → List ℕ → File
  new_file c bytes = record { contents = bytes; mtime = c.fs.now }

  abbrev pub written : DiskCache L → Text → List ℕ → DiskCache L
  written c key bytes = record c {
    fs = record c.fs { files = update c.fs.files (join c.root key) (some (new_file c bytes)) };
  }

  abbrev pub gone : DiskCache L → List ℕ → List Item → List Item
  gone c bytes items = dropped (L.capacity c.lru) (bytes_len bytes) items

  abbrev pub kept : DiskCache L → List ℕ → List Item → List Item
  kept c bytes items = make_room bytes_len (L.capacity c.lru) (bytes_len bytes) items

  -- The state that `insert_bytes` leaves: the file is written, the dropped items' files are removed
  -- after that, and the index has the key last.
  pub record Inserted (c : DiskCache L) (key : Text) (bytes : List ℕ) (items : List Item)
      (result : Outcome (DiskCache L) (Unit {0})) : Type 0 where
    pub lru : L.Cache
    pub ends :
        result
        ≡ ok tt (record c {
          lru = lru;
          fs = record c.fs {
            files =
                without c.root
                  (update c.fs.files (join c.root key) (some (new_file c bytes)))
                  (gone c bytes items);
          };
        })
    pub iter_eq : L.iter lru ≡ entries c.root (erase key (kept c bytes items) ++ (key, bytes) ∷ [])
    pub capacity_eq : L.capacity lru ≡ L.capacity c.lru

module _ (L : LruCache Entry) (laws : LruLaws measure L) where
  add_file_stores :
      (c : DiskCache L) (path rel : Text) (n : ℕ)
      → n ≤ L.capacity c.lru
      → add_file L c path (some rel) n
        ≡ insert_entry L path rel n (evict L (suc (length (L.iter c.lru))) n c)
  unfolding add_file
  add_file_stores c path rel n h = rw (le→leb n (L.capacity c.lru) h)

  insert_bytes_path :
      (c : DiskCache L) (key : Text) (bytes : List ℕ)
      → CanInsert L c key bytes
      → insert_bytes L c key bytes
        ≡ undo_insert L key
            (add_file L (written L c key bytes) (join c.root key) (some key) (bytes_len bytes))
  unfolding insert_bytes insert_by
  insert_bytes_path c key bytes can = rw (
    le→leb (length bytes) (L.capacity c.lru) can.fits,
    can.has_parent,
    create_dir_all-Quiet c.fs can.dir can.quiet,
    write_file-Quiet c.fs (join c.root key) bytes can.quiet,
  )

  -- The entries after the loop leave room for the new one, so the index drops none by itself.
  insert_fits :
      (c : DiskCache L) (key : Text) (bytes : List ℕ) (items : List Item)
      → bytes_len bytes ≤ L.capacity c.lru
      → total measure (
            erase key (entries c.root (kept L c bytes items))
            ++ (key, (join c.root key, bytes_len bytes)) ∷ [])
          + 0
        ≤ L.capacity c.lru
  unfolding total
  insert_fits c key bytes items h =
      let its = kept L c bytes items in
      rw
        (
          erase-entries c.root key its,
          total-append measure (entries c.root (erase key its))
              ((key, (join c.root key, bytes_len bytes)) ∷ []),
          total-entries c.root (erase key its),
        )
        (omega (
          arith,
          total-erase-le key its,
          total-make_room-le bytes_len (L.capacity c.lru) (bytes_len bytes) items h,
        ))

  iter_inserted :
      (c : DiskCache L) (key : Text) (bytes : List ℕ) (items : List Item) (l : L.Cache)
      → bytes_len bytes ≤ L.capacity c.lru
      → L.iter l ≡ entries c.root (kept L c bytes items)
      → L.capacity l ≡ L.capacity c.lru
      → L.iter (L.insert l key (join c.root key, bytes_len bytes))
        ≡ entries c.root (erase key (kept L c bytes items) ++ (key, bytes) ∷ [])
  iter_inserted c key bytes items l h e k =
      let its = kept L c bytes items in
      laws.iter-insert l key (join c.root key, bytes_len bytes)
      ∙ rw (e, k)
          (make_room_of_fits measure (L.capacity c.lru) 0 _ (insert_fits c key bytes items h)
            ∙ rw (
              erase-entries c.root key its,
              entries-append c.root (erase key its) ((key, bytes) ∷ []),
            ))

  -- On a fault-free disk the call succeeds, whatever the cache holds.
  pub insert_bytes_lem :
      (c : DiskCache L) (key : Text) (bytes : List ℕ) (items : List Item)
      → Represents L c items
      → CanInsert L c key bytes
      → Inserted L c key bytes items (insert_bytes L c key bytes)
  unfolding insert_entry undo_insert
  insert_bytes_lem c key bytes items r can =
      let p = join c.root key in
      let enough = ap length r.entries_eq ∙ length-entries c.root items in
      let loop =
        evict_lem L laws (suc (length (L.iter c.lru))) (bytes_len bytes) (written L c key bytes)
          items r.entries_eq
          (write-HasFile c.root p c.fs.files (new_file L c bytes) items
            (OnDisk-HasFile c.root c.fs.files items r.on_disk))
          r.distinct r.relative can.quiet can.adds r.within can.fits (omega (arith, enough)) in
      record {
        lru = L.insert loop.lru key (p, bytes_len bytes);
        ends =
            insert_bytes_path c key bytes can
            ∙ ap (undo_insert L key) (
                add_file_stores (written L c key bytes) p key (bytes_len bytes) can.fits
                ∙ ap (insert_entry L p key (bytes_len bytes)) loop.ends);
        iter_eq = iter_inserted c key bytes items loop.lru can.fits loop.iter_eq loop.capacity_eq;
        capacity_eq = laws.capacity-insert loop.lru key (p, bytes_len bytes) ∙ loop.capacity_eq;
      }

-- ===== src/Cache/Persistence.antt =====
-- An entry that was stored on disk is found again.
use sccache.Prelude.{Text, List, ◌≡◌, refl, Option, none, some}
use sccache.Lru.{
  LruCache, LruLaws, find, find_last, erase, erase-Absent, make_room, Absent, use_entry,
}
use sccache.LruDiskCache.{Entry, measure, DiskCache}
use sccache.LruDiskCache.Facts.{Item, Represents, bytes_len, dropped}
use sccache.LruDiskCache.Insert.{CanInsert, insert_bytes_lem}
use sccache.LruDiskCache.Refine.{spec_insert, kept-Distinct, after, after-Represents}
use sccache.LruDiskCache.Read.{get-Represents}
use sccache.Cache.Entry.{Bytes, CacheEntry, ZipCodec}
use sccache.Cache.Store.{hit, StorageLaws}
use sccache.Cache.Disk
use sccache.Cache.Disk.{
  make_key_path, Ending, value, disk_storage, finish_put, after_get, after_insert, read_entry,
  lookup_of, stored_of, locked_get, locked_finish_put,
}

module _ (L : LruCache Entry) (laws : LruLaws measure L) (zip : ZipCodec) where
  -- The entry can be stored: its file fits, and its eviction does not reach the key itself.
  pub record CanStore (c : DiskCache L) (key : Text) (entry : CacheEntry) : Type 0 where
    pub items : List Item
    pub represents : Represents L c items
    pub path : Text
    pub bytes : Bytes
    pub path_eq : make_key_path key ≡ some path
    pub bytes_eq : zip.finish entry ≡ some bytes
    pub can : CanInsert L c path bytes
    pub stays : Absent path (dropped (L.capacity c.lru) (bytes_len bytes) items)

  find-spec_insert :
      (c : DiskCache L) (path : Text) (bytes : Bytes) (items : List Item)
      → Represents L c items
      → CanInsert L c path bytes
      → find path (spec_insert (L.capacity c.lru) path bytes items) ≡ some bytes
  unfolding spec_insert
  find-spec_insert c path bytes items r can =
      let its = make_room bytes_len (L.capacity c.lru) (bytes_len bytes) items in
      find_last path bytes (erase path its)
        (erase-Absent path its (kept-Distinct L laws c path bytes items r can))

  -- Storing an entry that can be stored succeeds and leaves the cache with the abstract insertion's
  -- items; a read of the key then finds the entry, and makes its file the most recently used.
  pub get-finish_put :
      (c : DiskCache L) (key : Text) (entry : CacheEntry)
      → (can : CanStore c key entry)
      → let items = spec_insert (L.capacity c.lru) can.path can.bytes can.items in
        (c' : DiskCache L) × (c'' : DiskCache L) × (finish_put L zip c key entry ≡ value tt c')
        × Represents L c' items
        × (Disk.get L zip c' key ≡ value (hit entry) c'')
        × Represents L c'' (use_entry can.path (some can.bytes) items)
  unfolding finish_put Disk.get after_get after_insert read_entry
  get-finish_put c key entry can =
      let i = insert_bytes_lem L laws c can.path can.bytes can.items can.represents can.can in
      let c' = after L laws c can.path can.bytes can.items can.represents can.can i in
      let r =
        after-Represents L laws c can.path can.bytes can.items can.represents can.can i can.stays in
      let found =
        get-Represents L laws c' can.path can.bytes
          (spec_insert (L.capacity c.lru) can.path can.bytes can.items) r can.can.quiet
          (find-spec_insert c can.path can.bytes can.items can.represents can.can) in
      (
        c',
        found.0,
        rw (can.path_eq, finish_put, can.bytes_eq, i.ends),
        r,
        rw (
          can.path_eq,
          Disk.get,
          found.1,
          after_get,
          zip.from-finish entry can.bytes can.bytes_eq,
        ),
        found.2,
      )

  CanStoreIn : Option (DiskCache L) → Text → CacheEntry → Type 0
  CanStoreIn none key entry = ⊥
  CanStoreIn (some c) key entry = CanStore c key entry

  locked_get-finish_put :
      (s : Option (DiskCache L)) (key : Text) (entry : CacheEntry)
      → CanStoreIn s key entry
      → (locked_get L zip (locked_finish_put L zip s key entry).0 key).1 ≡ hit entry
  unfolding locked_get locked_finish_put lookup_of stored_of CanStoreIn
  locked_get-finish_put none key entry can = absurd can
  locked_get-finish_put (some c) key entry can =
      let (c', c'', put, r, found, r') = get-finish_put c key entry can in
      rw (put, locked_finish_put, stored_of, locked_get, found, lookup_of) refl

  -- `disk_storage` keeps the promise of a store.
  disk-StorageLaws : StorageLaws (disk_storage L zip)
  disk-StorageLaws = record {
    Fits = CanStoreIn;
    get-finish_put = λ s key entry can stored. locked_get-finish_put s key entry can;
  }

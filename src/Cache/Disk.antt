-- ===== src/Cache/Disk.antt =====
-- src/cache/disk.rs: the `Storage` that keeps each entry in a file of an `LruDiskCache`.
use sccache.Prelude.{ℕ, Text, [], ◌∷◌, Option, none, some, Bool, true, false}
use sccache.FilePath.{join}
use sccache.Lru.{LruCache}
use sccache.LruDiskCache
use sccache.LruDiskCache.{
  Entry, DiskCache, Outcome, ok, err, panic, out_of_fuel, file_not_in_cache, file_too_large, io,
  insert_bytes, size, capacity,
}
use sccache.Cache.Entry.{Bytes, CacheEntry, ZipCodec}
use sccache.Cache.Store.{Storage, Lookup, hit, miss, failed}

-- `make_key_path`: `none` is the panic of the slices.
unfoldable pub make_key_path : Text → Option Text
unfolding join
make_key_path [] = none
make_key_path (a ∷ []) = none
make_key_path (a ∷ b ∷ key) = some (join (join (a ∷ []) (b ∷ [])) (a ∷ b ∷ key))

-- How a call ends, with the state of the cache if it does not panic. A panic while the cache's mutex
-- is held poisons it.
pub data Ending (S A : Type 0) : Type 0 where
  value : A → S → Ending S A
  error : S → Ending S A
  panics : Ending S A
  poisons : Ending S A

module _ (L : LruCache Entry) (zip : ZipCodec) where
  unfoldable pub read_entry : DiskCache L → Option CacheEntry → Ending (DiskCache L) Lookup
  read_entry c none = error c
  read_entry c (some entry) = value (hit entry) c

  -- The `match` on what `lru.get` returns.
  unfoldable pub after_get : Outcome (DiskCache L) Bytes → Ending (DiskCache L) Lookup
  unfolding read_entry
  after_get (ok bytes c) = read_entry c (zip.from bytes)
  after_get (err file_not_in_cache c) = value miss c
  after_get (err io c) = error c
  after_get (err file_too_large c) = poisons
  after_get panic = poisons
  after_get out_of_fuel = poisons

  unfoldable pub get : DiskCache L → Text → Ending (DiskCache L) Lookup
  unfolding make_key_path after_get
  get c key = elim (make_key_path key) [
    | none ↦ panics
    | some path ↦ after_get (LruDiskCache.get L c path)
  ]

  unfoldable pub after_insert : Outcome (DiskCache L) (Unit {0}) → Ending (DiskCache L) (Unit {0})
  after_insert (ok _ c) = value tt c
  after_insert (err e c) = error c
  after_insert panic = poisons
  after_insert out_of_fuel = poisons

  unfoldable pub finish_put : DiskCache L → Text → CacheEntry → Ending (DiskCache L) (Unit {0})
  unfolding make_key_path after_insert
  finish_put c key entry = elim (make_key_path key) [
    | none ↦ panics
    | some path ↦ elim (zip.finish entry) [
      | none ↦ error c
      | some bytes ↦ after_insert (insert_bytes L c path bytes)
    ]
  ]

  unfoldable pub current_size : DiskCache L → ℕ
  current_size c = size L c

  unfoldable pub max_size : DiskCache L → ℕ
  max_size c = capacity L c

  -- As a `Storage`, a call that panics fails, and so does every call once the mutex is poisoned.
  unfoldable pub lookup_of :
      DiskCache L → Ending (DiskCache L) Lookup → Option (DiskCache L) × Lookup
  lookup_of c (value l c') = (some c', l)
  lookup_of c (error c') = (some c', failed)
  lookup_of c panics = (some c, failed)
  lookup_of c poisons = (none, failed)

  unfoldable pub stored_of :
      DiskCache L → Ending (DiskCache L) (Unit {0}) → Option (DiskCache L) × Bool
  stored_of c (value _ c') = (some c', true)
  stored_of c (error c') = (some c', false)
  stored_of c panics = (some c, false)
  stored_of c poisons = (none, false)

  unfoldable pub locked_get : Option (DiskCache L) → Text → Option (DiskCache L) × Lookup
  unfolding lookup_of get
  locked_get none key = (none, failed)
  locked_get (some c) key = lookup_of c (get c key)

  unfoldable pub locked_finish_put :
      Option (DiskCache L) → Text → CacheEntry → Option (DiskCache L) × Bool
  unfolding stored_of finish_put
  locked_finish_put none key entry = (none, false)
  locked_finish_put (some c) key entry = stored_of c (finish_put c key entry)

  -- The state is `none` when the mutex is poisoned.
  abbrev pub disk_storage : Storage
  disk_storage = record {
    State = Option (DiskCache L);
    get = locked_get;
    start_put = λ c key. true;
    finish_put = locked_finish_put;
  }

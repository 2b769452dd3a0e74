-- ===== src/LruDiskCache/Defs.antt =====
-- `LruDiskCache`: the state, the error type, and every method but the scan of the directory.
use sccache.Prelude.{
  ℕ, zero, suc, ◌+◌, Text, List, Option, none, some, Bool, not, if◌then◌else◌, ltb, leb, u64,
  length,
}
use sccache.Fs.{
  Fs, Io, done, fails, create_dir_all, write_file, metadata, remove_file, rename_file, copy_file,
  set_file_times, open_file,
}
use sccache.Lru.{LruCache}
use sccache.FilePath.{join, parent, strip_prefix}

pub data Error : Type 0 where
  file_too_large file_not_in_cache io : Error

-- How a method ends: with a value, with an error, in a panic, or not within its fuel. The state
-- after a value and after an error is part of the result.
pub data Outcome (S A : Type 0) : Type 0 where
  ok : A → S → Outcome S A
  err : Error → S → Outcome S A
  panic : Outcome S A
  out_of_fuel : Outcome S A

-- `FileSize`: an entry is a path with the file's size, and is measured by the size.
abbrev pub Entry : Type 0
Entry = Text × ℕ

abbrev pub measure : Entry → ℕ
measure v = v.1

pub record DiskCache (L : LruCache Entry) : Type 0 where
  pub lru : L.Cache
  pub root : Text
  pub fs : Fs

module _ (L : LruCache Entry) where
  unfoldable pub size : DiskCache L → ℕ
  size c = L.size c.lru

  unfoldable pub capacity : DiskCache L → ℕ
  capacity c = L.capacity c.lru

  unfoldable pub can_store : DiskCache L → ℕ → Bool
  can_store c n = leb n (L.capacity c.lru)

  -- One round of the `while` loop of `add_file`: the least recently used entry and its file go.
  unfoldable pub evict_one :
      DiskCache L
      → L.Cache × Option (Text × Entry)
      → (DiskCache L → Outcome (DiskCache L) (Unit {0}))
      → Outcome (DiskCache L) (Unit {0})
  evict_one c (lru, none) continue = panic
  evict_one c (lru, some (key, (remove_path, bytes))) continue =
      elim (remove_file c.fs remove_path) [
        | fails fs ↦ panic
        | done _ fs ↦ continue (record c { lru = lru; fs = fs })
      ]

  unfoldable pub evict : ℕ → ℕ → DiskCache L → Outcome (DiskCache L) (Unit {0})
  unfolding evict_one
  evict zero n c = out_of_fuel
  evict (suc fuel) n c =
      if ltb (L.capacity c.lru) (u64 (L.size c.lru + n))
      then evict_one c (L.remove_lru c.lru) (evict fuel n)
      else ok tt c

  -- `self.lru.insert(rel_path, (path, size))`, after the loop.
  unfoldable pub insert_entry :
      Text → Text → ℕ → Outcome (DiskCache L) (Unit {0}) → Outcome (DiskCache L) (Unit {0})
  insert_entry path rel n (ok _ c) = ok tt (record c { lru = L.insert c.lru rel (path, n) })
  insert_entry path rel n (err e c) = err e c
  insert_entry path rel n panic = panic
  insert_entry path rel n out_of_fuel = out_of_fuel

  unfoldable pub rel_path_of : Text → Text → Option Text → Option Text
  rel_path_of path root (some rel) = some rel
  rel_path_of path root none = strip_prefix path root

  -- The loop drops an entry in each round, so one round more than there are entries is enough.
  unfoldable pub add_file : DiskCache L → Text → Option Text → ℕ → Outcome (DiskCache L) (Unit {0})
  unfolding can_store rel_path_of
  add_file c path rel_path n =
      if not (can_store c n)
      then err file_too_large c
      else elim (rel_path_of path c.root rel_path) [
        | none ↦ panic
        | some rel ↦ insert_entry path rel n (evict (suc (length (L.iter c.lru))) n c)
      ]

  -- The `or_else` of `insert_by`.
  unfoldable pub undo_insert :
      Text → Outcome (DiskCache L) (Unit {0}) → Outcome (DiskCache L) (Unit {0})
  undo_insert rel (ok _ c) = ok tt c
  undo_insert rel (err e c) = elim (remove_file c.fs (join c.root rel)) [
    | fails fs ↦ panic
    | done _ fs ↦ err e (record c { fs = fs })
  ]
  undo_insert rel panic = panic
  undo_insert rel out_of_fuel = out_of_fuel

  -- `by` puts the file in its place.
  unfoldable pub insert_by :
      DiskCache L → Text → ℕ → (Fs → Text → Io (Unit {0})) → Outcome (DiskCache L) (Unit {0})
  unfolding can_store
  insert_by c key n by =
      let path = join c.root key in
      if not (can_store c n) then err file_too_large c else elim (parent path) [
        | none ↦ panic
        | some dir ↦ elim (create_dir_all c.fs dir) [
          | fails fs ↦ err io (record c { fs = fs })
          | done _ fs ↦ elim (by fs path) [
            | fails fs' ↦ err io (record c { fs = fs' })
            | done _ fs' ↦ undo_insert key (add_file (record c { fs = fs' }) path (some key) n)
          ]
        ]
      ]

  unfoldable pub insert_bytes : DiskCache L → Text → List ℕ → Outcome (DiskCache L) (Unit {0})
  unfolding insert_by
  insert_bytes c key bytes = insert_by c key (length bytes) (λ fs path. write_file fs path bytes)

  -- The closure of `insert_file`: a rename, or a copy after which the original is removed if it can
  -- be.
  unfoldable pub move_file : Text → Fs → Text → Io (Unit {0})
  move_file path fs new_path = elim (rename_file fs path new_path) [
    | done _ fs' ↦ done tt fs'
    | fails fs' ↦ elim (copy_file fs' path new_path) [
      | fails fs'' ↦ fails fs''
      | done _ fs'' ↦ elim (remove_file fs'' path) [ done _ f ↦ done tt f | fails f ↦ done tt f ]
    ]
  ]

  unfoldable pub insert_file : DiskCache L → Text → Text → Outcome (DiskCache L) (Unit {0})
  insert_file c key path = elim (metadata c.fs path) [
    | none ↦ err io c
    | some f ↦ insert_by c key (length f.contents) (move_file path)
  ]

  unfoldable pub contains_key : DiskCache L → Text → Bool
  contains_key c key = L.contains_key c.lru key

  -- `t` is the time that `filetime_now` reads.
  unfoldable pub touch_and_open : DiskCache L → Option Entry → Outcome (DiskCache L) (List ℕ)
  touch_and_open c none = err file_not_in_cache c
  touch_and_open c (some (path, n)) =
      let t = c.fs.now in
      elim (set_file_times c.fs path t) [
        | fails fs ↦ err io (record c { fs = fs })
        | done _ fs ↦ elim (open_file fs path) [
          | fails fs' ↦ err io (record c { fs = fs' })
          | done bytes fs' ↦ ok bytes (record c { fs = fs' })
        ]
      ]

  unfoldable pub get : DiskCache L → Text → Outcome (DiskCache L) (List ℕ)
  unfolding touch_and_open
  get c key = let (lru, found) = L.get c.lru key in touch_and_open (record c { lru = lru }) found

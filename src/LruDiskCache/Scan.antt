-- ===== src/LruDiskCache/Scan.antt =====
-- `get_all_files`, `new` and `init`: the scan of the directory. `walk` stands for the third-party
-- `walkdir`: the paths of the files below a directory.
use sccache.Prelude.{ℕ, Text, List, [], ◌∷◌, none, some, not, if◌then◌else◌, leb, length}
use sccache.Fs.{Fs, done, fails, create_dir_all, metadata, remove_file}
use sccache.Lru.{LruCache}
use sccache.LruDiskCache.Defs.{
  io, Outcome, ok, err, panic, out_of_fuel, Entry, DiskCache, can_store, add_file,
}

-- What `metadata` tells of a file: its modification time, its path, its length.
pub record Stamped : Type 0 where
  pub mtime : ℕ
  pub path : Text
  pub bytes : ℕ

-- The `filter_map`: a file whose metadata cannot be read is passed over.
unfoldable pub stat_all : Fs → List Text → List Stamped
unfolding metadata
stat_all fs [] = []
stat_all fs (p ∷ ps) =
    let rest = stat_all fs ps in
    elim (metadata fs p) [
      | none ↦ rest
      | some f ↦ (record { mtime = f.mtime; path = p; bytes = length f.contents }) ∷ rest
    ]

unfoldable pub insert_by_mtime : Stamped → List Stamped → List Stamped
insert_by_mtime s [] = s ∷ []
insert_by_mtime s (t ∷ ts) =
    let rest = insert_by_mtime s ts in if leb s.mtime t.mtime then s ∷ t ∷ ts else t ∷ rest

-- `sort_by_key(|k| k.0)`, which is stable.
unfoldable pub sort_by_mtime : List Stamped → List Stamped
unfolding insert_by_mtime
sort_by_mtime [] = []
sort_by_mtime (s ∷ ss) = insert_by_mtime s (sort_by_mtime ss)

unfoldable pub get_all_files : (Fs → Text → List Text) → Fs → Text → List Stamped
unfolding stat_all sort_by_mtime
get_all_files walk fs root = sort_by_mtime (stat_all fs (walk fs root))

module _ (L : LruCache Entry) where
  unfoldable pub remove_too_large : DiskCache L → Text → DiskCache L
  remove_too_large c path = elim (remove_file c.fs path) [
    | done _ fs ↦ record c { fs = fs }
    | fails fs ↦ record c { fs = fs }
  ]

  -- The error of an `add_file` is logged and dropped; a panic is not.
  unfoldable pub then_load :
      (DiskCache L → Outcome (DiskCache L) (Unit {0}))
      → Outcome (DiskCache L) (Unit {0})
      → Outcome (DiskCache L) (Unit {0})
  then_load continue (ok _ c) = continue c
  then_load continue (err e c) = continue c
  then_load continue panic = panic
  then_load continue out_of_fuel = out_of_fuel

  -- The `for` loop of `init`.
  unfoldable pub load : List Stamped → DiskCache L → Outcome (DiskCache L) (Unit {0})
  unfolding can_store remove_too_large then_load
  load [] c = ok tt c
  load (s ∷ ss) c =
      let rest = load ss (remove_too_large c s.path) in
      if not (can_store L c s.bytes)
      then rest
      else then_load (load ss) (add_file L c s.path none s.bytes)

  unfoldable pub init : (Fs → Text → List Text) → DiskCache L → Outcome (DiskCache L) (Unit {0})
  init walk c = elim (create_dir_all c.fs c.root) [
    | fails fs ↦ err io (record c { fs = fs })
    | done _ fs ↦ load (get_all_files walk fs c.root) (record c { fs = fs })
  ]

  unfoldable pub new : (Fs → Text → List Text) → Fs → Text → ℕ → Outcome (DiskCache L) (Unit {0})
  unfolding init
  new walk fs path n = init walk (record { lru = L.with_meter n; root = path; fs = fs })

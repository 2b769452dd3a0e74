-- ===== src/LruDiskCache/Refine.antt =====
-- `insert_bytes` refines the abstract insertion, unless it evicts the key that it inserts.
use sccache.Prelude.{
  ℕ, Text, List, [], ◌∷◌, ◌++◌, ◌≡◌, ◌≢◌, refl, sym, ◌∙◌, none, some, arith, All, All-append, subst,
}
use sccache.Fs.{update, update_self, update_ne}
use sccache.Lru.{
  LruCache, LruLaws, total, make_room, erase, Absent, Distinct, total-append, total-make_room-le,
  All-make_room, make_room-Distinct, All-erase, erase-Absent, erase-Distinct, Distinct-snoc,
}
use sccache.FilePath.{join}
use sccache.LruDiskCache.Defs.{Entry, measure, DiskCache, ok, insert_bytes}
use sccache.LruDiskCache.Facts.{
  Item, bytes_len, IsRelative, Represents, dropped, without, without_other,
  dropped-append-make_room, All-dropped, without_dropped,
}
use sccache.LruDiskCache.Files.{Distinct-append, total-erase-le, joins_differ, kept-OnDisk}
use sccache.LruDiskCache.Insert.{CanInsert, new_file, gone, kept, Inserted, insert_bytes_lem}

-- The abstract insertion: what must go goes from the front, and the key is then last.
unfoldable pub spec_insert : ℕ → Text → List ℕ → List Item → List Item
spec_insert cap key bytes items =
    erase key (make_room bytes_len cap (bytes_len bytes) items) ++ (key, bytes) ∷ []

module _ (L : LruCache Entry) (laws : LruLaws measure L) (c : DiskCache L) (key : Text)
    (bytes : List ℕ) (items : List Item) (r : Represents L c items)
    (can : CanInsert L c key bytes) where
  pub kept-Distinct : Distinct (kept L c bytes items)
  kept-Distinct = make_room-Distinct bytes_len _ _ items r.distinct

  kept_apart : All (λ it. Absent it.0 (gone L c bytes items)) (kept L c bytes items)
  kept_apart = Distinct-append (gone L c bytes items) (kept L c bytes items) (
      subst (λ its. Distinct its)
        (sym (dropped-append-make_room (L.capacity c.lru) (bytes_len bytes) items)) r.distinct)

  gone-IsRelative : All IsRelative (gone L c bytes items)
  gone-IsRelative = All-dropped IsRelative _ _ items r.relative

  abbrev pub after : Inserted L c key bytes items (insert_bytes L c key bytes) → DiskCache L
  after i = record c {
    lru = i.lru;
    fs = record c.fs {
      files =
          without c.root (update c.fs.files (join c.root key) (some (new_file L c bytes)))
            (gone L c bytes items);
    };
  }

  pub after-Represents :
      (i : Inserted L c key bytes items (insert_bytes L c key bytes))
      → Absent key (gone L c bytes items)
      → Represents L (after i) (spec_insert (L.capacity c.lru) key bytes items)
  unfolding spec_insert total
  after-Represents i a =
      let its = kept L c bytes items in
      let p = join c.root key in
      let rel = All-make_room IsRelative bytes_len _ _ items r.relative in
      record {
        entries_eq = i.iter_eq;
        on_disk =
            All-append _ (erase key its) ((key, bytes) ∷ [])
              (kept-OnDisk c.root key c.fs.files (some (new_file L c bytes)) (gone L c bytes items)
                (erase key its) can.relative_key (All-erase _ key its rel) gone-IsRelative
                (erase-Absent key its kept-Distinct) (All-erase _ key its kept_apart)
                (All-erase _ key its (All-make_room _ bytes_len _ _ items r.on_disk)))
              (
                (
                  c.fs.now,
                  without_other c.root _ (gone L c bytes items) p (
                        joins_differ c.root key (gone L c bytes items) can.relative_key
                          gone-IsRelative a)
                      ∙ update_self c.fs.files p (some (new_file L c bytes)),
                ),
                tt,
              );
        distinct =
            Distinct-snoc key bytes (erase key its) (erase-Distinct key its kept-Distinct)
              (erase-Absent key its kept-Distinct);
        relative =
            All-append _ (erase key its) ((key, bytes) ∷ []) (All-erase _ key its rel)
              (can.relative_key, tt);
        within =
            rw (total-append bytes_len (erase key its) ((key, bytes) ∷ []), i.capacity_eq)
              (omega (
                arith,
                total-erase-le key its,
                total-make_room-le bytes_len (L.capacity c.lru) (bytes_len bytes) items can.fits,
              ));
      }

  -- Inserting bytes under a key that the eviction does not reach succeeds. The cache then holds the
  -- abstract insertion's items in that order, with their files, within the same capacity.
  pub insert_bytes-Represents :
      Absent key (dropped (L.capacity c.lru) (bytes_len bytes) items)
      → (c' : DiskCache L) × (insert_bytes L c key bytes ≡ ok tt c')
        × Represents L c' (spec_insert (L.capacity c.lru) key bytes items)
        × (c'.root ≡ c.root)
        × (L.capacity c'.lru ≡ L.capacity c.lru)
  insert_bytes-Represents a =
      let i = insert_bytes_lem L laws c key bytes items r can in
      (after i, i.ends, after-Represents i a, refl, i.capacity_eq)

  -- The files of the evicted keys are gone, and a path that is neither the key's nor an evicted
  -- key's holds what it held.
  pub insert_bytes_frame :
      (c' : DiskCache L) × (insert_bytes L c key bytes ≡ ok tt c')
      × All
          (λ it. c'.fs.files (join c.root it.0) ≡ none)
          (dropped (L.capacity c.lru) (bytes_len bytes) items)
      × ((q : Text)
          → join c.root key ≢ q
          → All (λ it. join c.root it.0 ≢ q) (dropped (L.capacity c.lru) (bytes_len bytes) items)
          → c'.fs.files q ≡ c.fs.files q)
  insert_bytes_frame =
      let i = insert_bytes_lem L laws c key bytes items r can in
      (
        after i,
        i.ends,
        without_dropped c.root _ (gone L c bytes items),
        λ q other apart.
            without_other c.root _ (gone L c bytes items) q apart
            ∙ update_ne c.fs.files (join c.root key) q _ other,
      )

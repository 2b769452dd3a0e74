-- ===== src/LruDiskCache/Read.antt =====
-- What `get` and `contains_key` do, over the abstract view.
use sccache.Prelude.{
  ℕ, Text, List, [], ◌∷◌, ◌++◌, ◌≡◌, refl, ◌∙◌, ap, none, some, arith, All-append, Option-cases,
  inl, inr,
}
use sccache.Fs.{set_file_times-Quiet, open_file-Quiet, File, Quiet, update, update_self}
use sccache.Lru.{
  LruCache, LruLaws, total, erase, find, use_entry, is_some, total-append, total-erase, All-find,
  All-erase, erase-Absent, erase-Distinct, Distinct-snoc,
}
use sccache.FilePath.{join}
use sccache.LruDiskCache.Defs.{
  Entry, measure, DiskCache, ok, err, file_not_in_cache, get, contains_key, touch_and_open,
}
use sccache.LruDiskCache.Facts.{
  Item, bytes_len, entries, OnDisk, IsRelative, Represents, find-entries, erase-entries,
  entries-append,
}
use sccache.LruDiskCache.Files.{update-OnDisk}

module _ (L : LruCache Entry) (laws : LruLaws measure L) where
  get_entries :
      (c : DiskCache L) (key : Text) (bytes : List ℕ) (items : List Item)
      → Represents L c items
      → find key items ≡ some bytes
      → L.iter (L.get c.lru key).0 ≡ entries c.root (erase key items ++ (key, bytes) ∷ [])
  unfolding use_entry
  get_entries c key bytes items r h =
      laws.iter-get c.lru key
      ∙ rw (
        r.entries_eq,
        find-entries c.root key items,
        h,
        erase-entries c.root key items,
        entries-append c.root (erase key items) ((key, bytes) ∷ []),
      )

  -- A read of a key that the cache holds returns the bytes that were stored, and makes the key the
  -- most recently used.
  pub get-Represents :
      (c : DiskCache L) (key : Text) (bytes : List ℕ) (items : List Item)
      → Represents L c items
      → Quiet c.fs
      → find key items ≡ some bytes
      → (c' : DiskCache L) × (get L c key ≡ ok bytes c')
        × Represents L c' (use_entry key (some bytes) items)
        × (c'.root ≡ c.root)
        × (L.capacity c'.lru ≡ L.capacity c.lru)
  unfolding get touch_and_open use_entry total
  get-Represents c key bytes items r q h =
      let p = join c.root key in
      let here = All-find (OnDisk c.fs.files c.root) key items bytes r.on_disk h in
      let rel = All-find IsRelative key items bytes r.relative h in
      let f : File = record { contents = bytes; mtime = c.fs.now } in
      let fs' = record c.fs { files = update c.fs.files p (some f) } in
      let rest = erase key items in
      let away = erase-Absent key items r.distinct in
      let rest_rel = All-erase IsRelative key items r.relative in
      (
        record c { lru = (L.get c.lru key).0; fs = fs' },
        rw (
          laws.get-find c.lru key ∙ ap (find key) r.entries_eq ∙ find-entries c.root key items,
          h,
          touch_and_open,
          set_file_times-Quiet c.fs p bytes here.0 c.fs.now q here.1,
          open_file-Quiet fs' p f q (update_self c.fs.files p (some f)),
        ),
        record {
          entries_eq = get_entries c key bytes items r h;
          on_disk =
              All-append _ rest ((key, bytes) ∷ [])
                (update-OnDisk c.root key c.fs.files (some f) rest rel rest_rel away
                  (All-erase _ key items r.on_disk))
                ((c.fs.now, update_self c.fs.files p (some f)), tt);
          distinct = Distinct-snoc key bytes rest (erase-Distinct key items r.distinct) away;
          relative = All-append _ rest ((key, bytes) ∷ []) rest_rel (rel, tt);
          within =
              rw (laws.capacity-get c.lru key, total-append bytes_len rest ((key, bytes) ∷ []))
                (omega (arith, total-erase bytes_len key items bytes h, r.within));
        },
        refl,
        laws.capacity-get c.lru key,
      )

  -- A read of a key that the cache does not hold is refused, and changes nothing that the abstract
  -- view shows.
  pub get_absent :
      (c : DiskCache L) (key : Text) (items : List Item)
      → Represents L c items
      → find key items ≡ none
      → (c' : DiskCache L) × (get L c key ≡ err file_not_in_cache c')
        × Represents L c' items
        × (c'.fs ≡ c.fs)
  unfolding get touch_and_open use_entry
  get_absent c key items r h =
      let missing : find key (L.iter c.lru) ≡ none =
        ap (find key) r.entries_eq ∙ find-entries c.root key items ∙ rw h in
      (
        record c { lru = (L.get c.lru key).0 },
        rw (laws.get-find c.lru key ∙ missing),
        record {
          entries_eq = laws.iter-get c.lru key ∙ rw missing r.entries_eq;
          on_disk = r.on_disk;
          distinct = r.distinct;
          relative = r.relative;
          within = rw (laws.capacity-get c.lru key) r.within;
        },
        refl,
      )

  -- `contains_key` says what the abstract view says.
  pub contains_key-find :
      (c : DiskCache L) (key : Text) (items : List Item)
      → Represents L c items
      → contains_key L c key ≡ is_some (find key items)
  unfolding contains_key
  contains_key-find c key items r =
      laws.contains_key-find c.lru key
      ∙ rw (r.entries_eq, find-entries c.root key items)
          (elim (Option-cases (find key items)) [ inl e ↦ rw e | inr (bs, e) ↦ rw e ])

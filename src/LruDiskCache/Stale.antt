-- ===== src/LruDiskCache/Stale.antt =====
-- The case that `insert_bytes` does not handle: the eviction loop reaches the key being inserted.
use sccache.Prelude.{
  ℕ, Text, List, [], ◌∷◌, ◌++◌, ◌≡◌, ◌∙◌, ap, none, some, true, Bool-cases, inl, inr,
}
use sccache.Fs.{Fs, set_file_times, touch, fails}
use sccache.Lru.{LruCache, LruLaws, find, erase, All-find, find_last, erase-Absent}
use sccache.FilePath.{join}
use sccache.LruDiskCache.Defs.{
  Entry, measure, DiskCache, ok, err, io, insert_bytes, contains_key, get, touch_and_open,
}
use sccache.LruDiskCache.Facts.{Item, bytes_len, Represents, dropped, without_dropped, find-entries}
use sccache.LruDiskCache.Insert.{CanInsert, insert_bytes_lem, kept, gone}
use sccache.LruDiskCache.Refine.{after, kept-Distinct}

touch_missing : (fs : Fs) (p : Text) (t : ℕ) → fs.files p ≡ none → set_file_times fs p t ≡ fails fs
unfolding set_file_times
touch_missing fs p t e = elim (Bool-cases (fs.denied touch p)) [ inl d ↦ rw d | inr d ↦ rw (d, e) ]

module _ (L : LruCache Entry) (laws : LruLaws measure L) (c : DiskCache L) (key : Text)
    (bytes : List ℕ) (items : List Item) (r : Represents L c items)
    (can : CanInsert L c key bytes) where
  -- If the key that is inserted is among the entries that must go to make room, the call removes
  -- the file that it has just written. It still succeeds, and the cache claims to hold the key; but
  -- there is no file, and reading the key is an I/O error.
  pub insert_bytes_stale :
      {old : List ℕ}
      → find key (dropped (L.capacity c.lru) (bytes_len bytes) items) ≡ some old
      → (c' : DiskCache L) × (insert_bytes L c key bytes ≡ ok tt c')
        × (contains_key L c' key ≡ true)
        × (c'.fs.files (join c'.root key) ≡ none)
        × ((c'' : DiskCache L) × (get L c' key ≡ err io c''))
  unfolding contains_key get touch_and_open
  insert_bytes_stale {old} h =
      let i = insert_bytes_lem L laws c key bytes items r can in
      let c' = after L laws c key bytes items r can i in
      let missing =
        All-find (λ it. c'.fs.files (join c.root it.0) ≡ none) key _ old
          (without_dropped c.root _ (gone L c bytes items)) h in
      let its = erase key (kept L c bytes items) in
      let away =
        erase-Absent key (kept L c bytes items) (kept-Distinct L laws c key bytes items r can) in
      let found : find key (L.iter i.lru) ≡ some (join c.root key, bytes_len bytes) =
        ap (find key) i.iter_eq
        ∙ find-entries c.root key (its ++ (key, bytes) ∷ [])
        ∙ rw (find_last key bytes its away) in
      (
        c',
        i.ends,
        laws.contains_key-find i.lru key ∙ rw found,
        missing,
        (
          record c' { lru = (L.get i.lru key).0 },
          rw (
            laws.get-find i.lru key ∙ found,
            touch_and_open,
            touch_missing c'.fs (join c.root key) c.fs.now missing,
          ),
        ),
      )

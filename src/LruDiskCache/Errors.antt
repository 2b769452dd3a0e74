-- ===== src/LruDiskCache/Errors.antt =====
-- What a failed `insert_bytes` leaves, on any disk and with any faults.
use sccache.Prelude.{
  ℕ, zero, suc, ◌+◌, Text, List, ◌≡◌, ◌≢◌, refl, ◌∙◌, ap, Option, none, some, Bool, true, false,
  leb, ltb, u64, length, if◌then◌else◌, Bool-cases, Option-cases, inl, inr, subst,
}
use sccache.Fs.{
  Fs, Io, done, fails, update_ne, create, write, write_file, create_dir_all, mkdir, remove_file,
}
use sccache.Lru.{LruCache}
use sccache.FilePath.{join, parent}
use sccache.LruDiskCache.Defs.{
  Entry, DiskCache, Outcome, ok, err, panic, out_of_fuel, Error, io, file_too_large, evict_one,
  evict, add_file, insert_entry, undo_insert, insert_by, insert_bytes,
}

module _ (L : LruCache Entry) where
  -- The outcome is no error.
  abbrev NoErr : Outcome (DiskCache L) (Unit {0}) → Type 0
  NoErr o = (e : Error) (c : DiskCache L) → o ≢ err e c

  evict_one-NoErr :
      (c : DiskCache L) (popped : L.Cache × Option (Text × Entry))
      (continue : DiskCache L → Outcome (DiskCache L) (Unit {0}))
      → ((d : DiskCache L) → NoErr (continue d))
      → NoErr (evict_one L c popped continue)
  unfolding evict_one
  evict_one-NoErr c (l, none) continue h = λ e d p. cc
  evict_one-NoErr c (l, some (k, (path, n))) continue h = after_remove (remove_file c.fs path)
    where
      after_remove :
          (o : Io (Unit {0}))
          → NoErr
              (elim o [ fails fs ↦ panic | done _ fs ↦ continue (record c { lru = l; fs = fs }) ])
      after_remove (fails fs) = λ e d p. cc
      after_remove (done _ fs) = h (record c { lru = l; fs = fs })

  evict_round-NoErr :
      (b : Bool) (fuel n : ℕ) (c : DiskCache L)
      → ((d : DiskCache L) → NoErr (evict L fuel n d))
      → NoErr (if b then evict_one L c (L.remove_lru c.lru) (evict L fuel n) else ok tt c)
  evict_round-NoErr true fuel n c h = evict_one-NoErr c (L.remove_lru c.lru) (evict L fuel n) h
  evict_round-NoErr false fuel n c h = λ e d p. cc

  evict-NoErr : (fuel n : ℕ) (c : DiskCache L) → NoErr (evict L fuel n c)
  unfolding evict
  evict-NoErr zero n c = λ e d p. cc
  evict-NoErr (suc fuel) n c =
      evict_round-NoErr (ltb (L.capacity c.lru) (u64 (L.size c.lru + n))) fuel n c
        (evict-NoErr fuel n)

  stored-NoErr :
      (p rel : Text) (n : ℕ) (o : Outcome (DiskCache L) (Unit {0}))
      → NoErr o
      → NoErr (undo_insert L rel (insert_entry L p rel n o))
  unfolding undo_insert insert_entry
  stored-NoErr p rel n (ok _ c) h = λ e d q. cc
  stored-NoErr p rel n (err e c) h = absurd (h e c refl)
  stored-NoErr p rel n panic h = λ e d q. cc
  stored-NoErr p rel n out_of_fuel h = λ e d q. cc

  -- Nothing but the file at `p` differs.
  abbrev pub OnlyFileAt : Text → DiskCache L → DiskCache L → Type 0
  OnlyFileAt p c c' =
      (c'.lru ≡ c.lru) × (c'.root ≡ c.root) × ((q : Text) → p ≢ q → c'.fs.files q ≡ c.fs.files q)

  write_file_frame :
      (fs : Fs) (p : Text) (bytes : List ℕ) (fs' : Fs)
      → write_file fs p bytes ≡ fails fs'
      → (q : Text) → p ≢ q
      → fs'.files q ≡ fs.files q
  unfolding write_file
  write_file_frame fs p bytes fs' h q ne = elim (Bool-cases (fs.denied create p)) [
    | inl d ↦ ap (λ (g : Fs). g.files q) (same (rw d at h))
    | inr d ↦ elim (Bool-cases (fs.denied write p)) [
      | inl w ↦ ap (λ (g : Fs). g.files q) (same (rw (d, w) at h)) ∙ update_ne fs.files p q _ ne
      | inr w ↦ absurd (not_done (rw (d, w) at h))
    ]
  ]
    where
      same : {x y : Fs} → ◌≡◌ {A = Io (Unit {0})} (fails x) (fails y) → y ≡ x
      same e = cc

      not_done : {x y : Fs} → ◌≡◌ {A = Io (Unit {0})} (done tt x) (fails y) → ⊥
      not_done e = cc

  err_state :
      (p : Text) (c d : DiskCache L) (x e : Error) (c' : DiskCache L)
      → ◌≡◌ {A = Outcome (DiskCache L) (Unit {0})} (err x d) (err e c')
      → OnlyFileAt p c d
      → OnlyFileAt p c c'
  err_state p c d x e c' h only = subst (OnlyFileAt p c) (same h) only
    where
      same :
          {x' : Error} {d' : DiskCache L}
          → ◌≡◌ {A = Outcome (DiskCache L) (Unit {0})} (err x d) (err x' d')
          → d ≡ d'
      same q = cc

  add_file-NoErr :
      (c : DiskCache L) (p key : Text) (n : ℕ)
      → leb n (L.capacity c.lru) ≡ true
      → NoErr (undo_insert L key (add_file L c p (some key) n))
  unfolding add_file
  add_file-NoErr c p key n fits = rw fits (
      stored-NoErr p key n (evict L (suc (length (L.iter c.lru))) n c)
        (evict-NoErr (suc (length (L.iter c.lru))) n c))

  after_write :
      (c : DiskCache L) (key : Text) (bytes : List ℕ) (e : Error) (c' : DiskCache L)
      (o : Io (Unit {0}))
      → leb (length bytes) (L.capacity c.lru) ≡ true
      → write_file c.fs (join c.root key) bytes ≡ o
      → elim o [
        | fails fs' ↦ err io (record c { fs = fs' })
        | done _ fs' ↦
            undo_insert L key
              (add_file L (record c { fs = fs' }) (join c.root key) (some key) (length bytes))
      ]
        ≡ err e c'
      → OnlyFileAt (join c.root key) c c'
  after_write c key bytes e c' (fails fs') fits w h =
      err_state (join c.root key) c (record c { fs = fs' }) io e c' h
        (refl, refl, write_file_frame c.fs (join c.root key) bytes fs' w)
  after_write c key bytes e c' (done _ fs') fits w h =
      absurd
        (add_file-NoErr (record c { fs = fs' }) (join c.root key) key (length bytes) fits e c' h)

  -- When `insert_bytes` ends in an error, the index is the one before the call, and so is every file
  -- but the one at the key's own path.
  pub insert_bytes_err :
      (c : DiskCache L) (key : Text) (bytes : List ℕ) (e : Error) (c' : DiskCache L)
      → insert_bytes L c key bytes ≡ err e c'
      → OnlyFileAt (join c.root key) c c'
  unfolding insert_bytes insert_by create_dir_all
  insert_bytes_err c key bytes e c' h = elim (Bool-cases (leb (length bytes) (L.capacity c.lru))) [
    | inr big ↦
        err_state (join c.root key) c c file_too_large e c' (rw big at h) (refl, refl, λ q ne. refl)
    | inl fits ↦ elim (Option-cases (parent (join c.root key))) [
      | inl p ↦ absurd (not_err (rw (fits, p) at h))
      | inr (dir, p) ↦ elim (Bool-cases (c.fs.denied mkdir dir)) [
        | inl d ↦
            err_state (join c.root key) c c io e c' (rw (fits, p, d) at h)
              (refl, refl, λ q ne. refl)
        | inr d ↦
            after_write c key bytes e c' (write_file c.fs (join c.root key) bytes) fits refl
              (rw (fits, p, d) at h)
      ]
    ]
  ]
    where
      not_err : ◌≡◌ {A = Outcome (DiskCache L) (Unit {0})} panic (err e c') → ⊥
      not_err x = cc

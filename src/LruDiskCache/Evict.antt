-- ===== src/LruDiskCache/Evict.antt =====
-- The eviction loop of `add_file`: it ends, and drops the least recently used entries with their
-- files until the new file fits.
use sccache.Prelude.{
  ℕ, zero, suc, ◌+◌, ◌*◌, ◌≤◌, ◌<◌, Text, List, [], ◌∷◌, ◌≡◌, refl, ◌∙◌, ap, none, some, false, leb,
  u64, u64_mod, le→not_ltb, lt→ltb, leb→le, not_leb→lt, length, arith, All, Bool-cases, inl, inr,
}
use sccache.Fs.{Fs, Quiet, done, update, remove, remove_file}
use sccache.Lru.{LruCache, LruLaws, total, make_room, Distinct}
use sccache.FilePath.{join}
use sccache.LruDiskCache.Defs.{Entry, measure, DiskCache, Outcome, ok, evict_one, evict}
use sccache.LruDiskCache.Facts.{
  Item, bytes_len, entries, HasFile, IsRelative, dropped, without, total-entries,
}
use sccache.LruDiskCache.Files.{update-HasFile}

pub remove_file_present :
    (fs : Fs) (p : Text) {f : sccache.Fs.File}
    → fs.denied remove p ≡ false
    → fs.files p ≡ some f
    → remove_file fs p ≡ done tt (record fs { files = update fs.files p none })
unfolding remove_file
remove_file_present fs p h e = rw (h, e)

module _ (L : LruCache Entry) where
  -- What the loop leaves: the index and the disk without the dropped items.
  pub record Evicted (c : DiskCache L) (n : ℕ) (items : List Item)
      (result : Outcome (DiskCache L) (Unit {0})) : Type 0 where
    pub lru : L.Cache
    pub ends :
        result
        ≡ ok tt (record c {
          lru = lru;
          fs = record c.fs {
            files = without c.root c.fs.files (dropped (L.capacity c.lru) n items);
          };
        })
    pub iter_eq : L.iter lru ≡ entries c.root (make_room bytes_len (L.capacity c.lru) n items)
    pub capacity_eq : L.capacity lru ≡ L.capacity c.lru

module _ (L : LruCache Entry) (laws : LruLaws measure L) where
  size-entries :
      (c : DiskCache L) (items : List Item)
      → L.iter c.lru ≡ entries c.root items
      → L.size c.lru ≡ total bytes_len items
  size-entries c items e = laws.size-total c.lru ∙ ap (total measure) e ∙ total-entries c.root items

  evict_fits :
      (fuel n : ℕ) (c : DiskCache L) (items : List Item)
      → L.iter c.lru ≡ entries c.root items
      → L.capacity c.lru < u64_mod
      → total bytes_len items + n ≤ L.capacity c.lru
      → evict L (suc fuel) n c ≡ ok tt c
  unfolding evict
  evict_fits fuel n c items e bound h =
      let s = size-entries c items e in
      rw (le→not_ltb (L.capacity c.lru) (u64 (L.size c.lru + n)) (omega arith))

  -- The state after one round.
  abbrev after_round : DiskCache L → Text → DiskCache L
  after_round c k = record c {
    lru = (L.remove_lru c.lru).0;
    fs = record c.fs { files = update c.fs.files (join c.root k) none };
  }

  evict_round :
      (fuel n : ℕ) (c : DiskCache L) (it : Item) (items : List Item)
      → L.iter c.lru ≡ entries c.root (it ∷ items)
      → HasFile c.fs.files c.root it
      → Quiet c.fs
      → L.capacity c.lru < u64 (L.size c.lru + n)
      → evict L (suc fuel) n c ≡ evict L fuel n (after_round c it.0)
  unfolding evict evict_one
  evict_round fuel n c it items e d q over = rw (
    lt→ltb (L.capacity c.lru) (u64 (L.size c.lru + n)) over,
    (laws.remove_lru_head c.lru _ _ e).0,
    evict_one,
    remove_file_present c.fs (join c.root it.0) (q remove (join c.root it.0)) d.1,
  )

  pub evict_lem :
      (fuel n : ℕ) (c : DiskCache L) (items : List Item)
      → L.iter c.lru ≡ entries c.root items
      → All (HasFile c.fs.files c.root) items
      → Distinct items
      → All IsRelative items
      → Quiet c.fs
      → 2 * L.capacity c.lru < u64_mod
      → total bytes_len items ≤ L.capacity c.lru
      → n ≤ L.capacity c.lru
      → length items < fuel
      → Evicted L c n items (evict L fuel n c)
  unfolding make_room dropped without total
  evict_lem zero n c items e d u r q bound w h f = elim f [ ]
  evict_lem (suc fuel) n c [] e d u r q bound w h f = record {
    lru = c.lru;
    ends = evict_fits fuel n c [] e (omega arith) (omega arith);
    iter_eq = e;
    capacity_eq = refl;
  }
  evict_lem (suc fuel) n c (it ∷ items) e d u r q bound w h f =
      elim (Bool-cases (leb (total bytes_len (it ∷ items) + n) (L.capacity c.lru))) [
        | inl fits ↦ record {
          lru = c.lru;
          ends = rw fits (evict_fits fuel n c (it ∷ items) e (omega arith) (leb→le _ _ fits));
          iter_eq = rw fits e;
          capacity_eq = refl;
        }
        | inr over ↦
            let size_eq = size-entries c (it ∷ items) e in
            let kept = laws.capacity-remove_lru c.lru in
            let rest =
              evict_lem fuel n (after_round c it.0) items ((laws.remove_lru_head c.lru _ _ e).1)
                (update-HasFile c.root it.0 c.fs.files none items r.0 r.1 u.0 d.1) u.1 r.1 q
                (rw kept bound) (rw kept (omega arith)) (rw kept h) (omega arith) in
            record {
              lru = rest.lru;
              ends =
                  evict_round fuel n c it items e d.0 q
                    (rw size_eq (omega (arith, not_leb→lt _ _ over)))
                  ∙ rest.ends
                  ∙ ap
                      (λ (cap : ℕ). ok tt (record c {
                        lru = rest.lru;
                        fs = record c.fs {
                          files =
                              without c.root (update c.fs.files (join c.root it.0) none)
                                (dropped cap n items);
                        };
                      }))
                      kept
                  ∙ rw over;
              iter_eq =
                  rest.iter_eq
                  ∙ ap (λ (cap : ℕ). entries c.root (make_room bytes_len cap n items)) kept
                  ∙ rw over;
              capacity_eq = rest.capacity_eq ∙ kept;
            }
      ]

-- ===== src/LruDiskCache/Facts.antt =====
-- The abstract view of an `LruDiskCache`: keys with their bytes, the least recently used first.
use sccache.Prelude.{
  ℕ, suc, ◌+◌, ◌≤◌, Text, text_eq, text_eq_iff, List, [], ◌∷◌, ◌++◌, ◌≡◌, ◌≢◌, refl, ap, Option,
  none, some, true, false, if◌then◌else◌, leb, length, arith, All, Bool-cases, inl, inr, ◌∙◌,
}
use sccache.Fs.{File, update, update_self, update_ne}
use sccache.Lru.{LruCache, find, erase, total, make_room, Distinct}
use sccache.FilePath.{join, is_absolute}
use sccache.LruDiskCache.Defs.{Entry, measure, DiskCache}

abbrev pub Item : Type 0
Item = Text × List ℕ

abbrev pub bytes_len : List ℕ → ℕ
bytes_len bs = length bs

abbrev pub entries : Text → List Item → List (Text × Entry)
entries root [] = []
entries root ((k, bs) ∷ its) = (k, (join root k, bytes_len bs)) ∷ entries root its

abbrev pub OnDisk : (Text → Option File) → Text → Item → Type 0
OnDisk files root it =
    (m : ℕ) × (files (join root it.0) ≡ some (record { contents = it.1; mtime = m }))

abbrev pub IsRelative : Item → Type 0
IsRelative it = is_absolute it.0 ≡ false

-- There is a file at the item's path, whatever it holds.
abbrev pub HasFile : (Text → Option File) → Text → Item → Type 0
HasFile files root it = (f : File) × (files (join root it.0) ≡ some f)

-- The cache holds the items in this order, each in its file, and they fit.
pub record Represents (L : LruCache Entry) (c : DiskCache L) (items : List Item) : Type 0 where
  pub entries_eq : L.iter c.lru ≡ entries c.root items
  pub on_disk : All (OnDisk c.fs.files c.root) items
  pub distinct : Distinct items
  pub relative : All IsRelative items
  pub within : total bytes_len items ≤ L.capacity c.lru

-- The items that `make_room` drops, and the disk without their files.
unfoldable pub dropped : ℕ → ℕ → List Item → List Item
dropped cap n [] = []
dropped cap n (it ∷ its) =
    let rest = dropped cap n its in
    if leb (total bytes_len (it ∷ its) + n) cap then [] else it ∷ rest

unfoldable pub without : Text → (Text → Option File) → List Item → Text → Option File
without root files [] = files
without root files (it ∷ its) = without root (update files (join root it.0) none) its

pub total-entries :
    (root : Text) (its : List Item) → total measure (entries root its) ≡ total bytes_len its
unfolding total
total-entries root [] = refl
total-entries root ((k, bs) ∷ its) = omega (arith, total-entries root its)

pub find-entries :
    (root k : Text) (its : List Item)
    → find k (entries root its)
      ≡ elim (find k its) [ none ↦ none | some bs ↦ some (join root k, bytes_len bs) ]
unfolding find
find-entries root k [] = refl
find-entries root k ((j, bs) ∷ its) = elim (Bool-cases (text_eq j k)) [
  | inl e ↦ ground (arith, text_eq_iff j k)
  | inr e ↦ ground (arith, find-entries root k its)
]

pub erase-entries :
    (root k : Text) (its : List Item) → erase k (entries root its) ≡ entries root (erase k its)
unfolding erase
erase-entries root k [] = refl
erase-entries root k ((j, bs) ∷ its) = elim (Bool-cases (text_eq j k)) [
  | inl e ↦ rw (e)
  | inr e ↦ rw (e, erase-entries root k its)
]

pub entries-append :
    (root : Text) (xs ys : List Item) → entries root (xs ++ ys) ≡ entries root xs ++ entries root ys
entries-append root [] ys = refl
entries-append root ((k, bs) ∷ xs) ys =
    ap (◌∷◌ (k, (join root k, bytes_len bs))) (entries-append root xs ys)

pub length-entries : (root : Text) (its : List Item) → length (entries root its) ≡ length its
length-entries root [] = refl
length-entries root ((k, bs) ∷ its) = ap suc (length-entries root its)

pub dropped-append-make_room :
    (cap n : ℕ) (its : List Item) → dropped cap n its ++ make_room bytes_len cap n its ≡ its
unfolding dropped make_room
dropped-append-make_room cap n [] = refl
dropped-append-make_room cap n (it ∷ its) =
    elim (Bool-cases (leb (total bytes_len (it ∷ its) + n) cap)) [
      | inl e ↦ rw e
      | inr e ↦ rw (e, dropped-append-make_room cap n its)
    ]

-- A file of no dropped item stays as it was.
pub without_other :
    (root : Text) (files : Text → Option File) (its : List Item) (q : Text)
    → All (λ it. join root it.0 ≢ q) its
    → without root files its q ≡ files q
unfolding without
without_other root files [] q h = refl
without_other root files (it ∷ its) q h =
    without_other root (update files (join root it.0) none) its q h.1
    ∙ update_ne files (join root it.0) q none h.0

-- A file of a dropped item is gone.
pub without_gone :
    (root : Text) (files : Text → Option File) (its : List Item) (q : Text)
    → files q ≡ none
    → without root files its q ≡ none
unfolding without
without_gone root files [] q h = h
without_gone root files (it ∷ its) q h =
    without_gone root (update files (join root it.0) none) its q
      (elim (Bool-cases (text_eq (join root it.0) q)) [ inl e ↦ rw e | inr e ↦ rw e h ])

pub without_dropped :
    (root : Text) (files : Text → Option File) (its : List Item)
    → All (λ it. without root files its (join root it.0) ≡ none) its
unfolding without
without_dropped root files [] = tt
without_dropped root files (it ∷ its) =
    let p = join root it.0 in
    let fewer = update files p none in
    (without_gone root fewer its p (update_self files p none), without_dropped root fewer its)

pub All-dropped {κ} :
    (P : Item → Type κ) (cap n : ℕ) (its : List Item) → All P its → All P (dropped cap n its)
unfolding dropped
All-dropped P cap n [] h = tt
All-dropped P cap n (it ∷ its) h =
    elim (leb (total bytes_len (it ∷ its) + n) cap)
      as (λ b. All P (if b then [] else it ∷ dropped cap n its)) [
        | true ↦ tt
        | false ↦ (h.0, All-dropped P cap n its h.1)
      ]

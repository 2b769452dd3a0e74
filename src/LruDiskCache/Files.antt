-- ===== src/LruDiskCache/Files.antt =====
-- The files of the items: what a write and the removals leave of them.
use sccache.Prelude.{
  ◌≤◌, Text, text_eq, List, [], ◌∷◌, ◌++◌, ◌≡◌, ◌≢◌, refl, sym, Option, some, Bool, true, false,
  if◌then◌else◌, arith, All, All-map, Bool-cases, inl, inr, ◌∙◌,
}
use sccache.Fs.{File, update, update_ne}
use sccache.Lru.{erase, total, Absent, Distinct}
use sccache.FilePath.{join, is_absolute, join-injective}
use sccache.LruDiskCache.Facts.{
  Item, bytes_len, OnDisk, IsRelative, HasFile, without, without_other,
}

pub joins_differ :
    (root k : Text) (its : List Item)
    → is_absolute k ≡ false
    → All IsRelative its
    → Absent k its
    → All (λ it. join root it.0 ≢ join root k) its
joins_differ root k [] h r a = tt
joins_differ root k (it ∷ its) h r a =
    (λ e. a.0 (join-injective root it.0 k r.0 h e), joins_differ root k its h r.1 a.1)

-- A write or a removal at the path of an absent key leaves the items' files alone.
pub update-OnDisk :
    (root k : Text) (files : Text → Option File) (f : Option File) (its : List Item)
    → is_absolute k ≡ false
    → All IsRelative its
    → Absent k its
    → All (OnDisk files root) its
    → All (OnDisk (update files (join root k) f) root) its
update-OnDisk root k files f [] h r a d = tt
update-OnDisk root k files f (it ∷ its) h r a d = (
  (
    d.0.0,
    update_ne files (join root k) (join root it.0) f
          (λ e. a.0 (join-injective root it.0 k r.0 h (sym e)))
        ∙ d.0.1,
  ),
  update-OnDisk root k files f its h r.1 a.1 d.1,
)

pub update-HasFile :
    (root k : Text) (files : Text → Option File) (f : Option File) (its : List Item)
    → is_absolute k ≡ false
    → All IsRelative its
    → Absent k its
    → All (HasFile files root) its
    → All (HasFile (update files (join root k) f) root) its
update-HasFile root k files f [] h r a d = tt
update-HasFile root k files f (it ∷ its) h r a d = (
  (
    d.0.0,
    update_ne files (join root k) (join root it.0) f
          (λ e. a.0 (join-injective root it.0 k r.0 h (sym e)))
        ∙ d.0.1,
  ),
  update-HasFile root k files f its h r.1 a.1 d.1,
)

-- A write takes no file away.
pub write-HasFile :
    (root p : Text) (files : Text → Option File) (f : File) (its : List Item)
    → All (HasFile files root) its
    → All (HasFile (update files p (some f)) root) its
write-HasFile root p files f its = All-map _ _ its (λ it h. has it h (text_eq p (join root it.0)))
  where
    has :
        (it : Item)
        → HasFile files root it
        → (b : Bool) → (g : File) × ((if b then some f else files (join root it.0)) ≡ some g)
    has it h true = (f, refl)
    has it h false = h

pub OnDisk-HasFile :
    (root : Text) (files : Text → Option File) (its : List Item)
    → All (OnDisk files root) its
    → All (HasFile files root) its
OnDisk-HasFile root files its =
    All-map _ _ its (λ it d. (record { contents = it.1; mtime = d.0 }, d.1))

-- The members of the second part of a list without repetition are absent from the first.
pub Distinct-append : (xs ys : List Item) → Distinct (xs ++ ys) → All (λ it. Absent it.0 xs) ys
Distinct-append [] ys d = all_tt ys
  where
    all_tt : (zs : List Item) → All (λ it. Unit {0}) zs
    all_tt [] = tt
    all_tt (z ∷ zs) = (tt, all_tt zs)
Distinct-append (x ∷ xs) ys d = zip_all ys (All-append_right xs ys d.0) (Distinct-append xs ys d.1)
  where
    All-append_right : (us vs : List Item) → Absent x.0 (us ++ vs) → Absent x.0 vs
    All-append_right [] vs a = a
    All-append_right (u ∷ us) vs a = All-append_right us vs a.1

    zip_all :
        (zs : List Item)
        → Absent x.0 zs
        → All (λ it. Absent it.0 xs) zs
        → All (λ it. Absent it.0 (x ∷ xs)) zs
    zip_all [] a b = tt
    zip_all (z ∷ zs) a b = ((λ e. a.0 (sym e), b.0), zip_all zs a.1 b.1)

pub total-erase-le :
    (k : Text) (its : List Item) → total bytes_len (erase k its) ≤ total bytes_len its
unfolding erase total
total-erase-le k [] = omega arith
total-erase-le k ((j, bs) ∷ its) = elim (Bool-cases (text_eq j k)) [
  | inl e ↦ rw e (omega arith)
  | inr e ↦ rw e (omega (arith, total-erase-le k its))
]

-- The items keep their files while an absent key's file is written and others' files are dropped.
pub kept-OnDisk :
    (root k : Text) (files : Text → Option File) (f : Option File) (gone its : List Item)
    → is_absolute k ≡ false
    → All IsRelative its
    → All IsRelative gone
    → Absent k its
    → All (λ it. Absent it.0 gone) its
    → All (OnDisk files root) its
    → All (OnDisk (without root (update files (join root k) f) gone) root) its
kept-OnDisk root k files f gone [] h r g a apart d = tt
kept-OnDisk root k files f gone (it ∷ its) h r g a apart d =
    let here = update-OnDisk root k files f (it ∷ []) h (r.0, tt) (a.0, tt) (d.0, tt) in
    (
      (
        here.0.0,
        without_other root _ gone (join root it.0) (joins_differ root it.0 gone r.0 g apart.0)
            ∙ here.0.1,
      ),
      kept-OnDisk root k files f gone its h r.1 g a.1 apart.1 d.1,
    )

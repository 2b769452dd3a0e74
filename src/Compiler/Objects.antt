-- ===== src/Compiler/Objects.antt =====
-- The objects of an entry: what is read from the outputs of a compilation is what a hit writes.
use sccache.Prelude.{
  ℕ, Text, [], ◌∷◌, ◌++◌, ◌≡◌, ◌≢◌, refl, ◌∙◌, ap, sym, subst, Option, none, some, All, All-map,
  All-zip, Bool-cases, Option-cases, inl, inr,
}
use sccache.Fs.{
  Fs, File, Io, done, fails, Quiet, update, update_self, update_ne, open_file, write_file-Quiet,
  read,
}
use sccache.Lru.{find, Absent, Distinct, find_last, find-snoc_ne, Absent-of_find}
use sccache.Compiler.Types.{Outputs}
use sccache.Compiler.CachedCompile.{
  write_object, write_outputs, read_outputs, put_stream, bytes_or_empty,
}
use sccache.Cache.{CacheEntry, put_object, get_object, Bytes}

-- The entry has the object of this name, with these contents.
abbrev pub Stored : CacheEntry → (Text → Option File) → Text × Text → Type 0
Stored entry files o =
    (bytes : Bytes) × (get_object entry o.0 ≡ some bytes)
    × ((m : ℕ) × (files o.1 ≡ some (record { contents = bytes; mtime = m })))

-- No path twice.
abbrev pub DistinctPaths : Outputs → Type 0
DistinctPaths [] = Unit
DistinctPaths (o ∷ os) = All (λ q. q.1 ≢ o.1) os × DistinctPaths os

not_done : {A : Type 0} {a : A} {x y : Fs} → fails x ≡ done a y → ⊥
not_done h = cc

done_inj : {A : Type 0} {a b : A} {x y : Fs} → done a x ≡ done b y → (a ≡ b) × (x ≡ y)
done_inj h = (cc, cc)

-- `open_file` reads what is there, and changes nothing.
open_file_done :
    (fs : Fs) (path : Text) (bytes : Bytes) (f : Fs)
    → open_file fs path ≡ done bytes f
    → (f ≡ fs) × ((m : ℕ) × (fs.files path ≡ some (record { contents = bytes; mtime = m })))
unfolding open_file
open_file_done fs path bytes f h = elim (Bool-cases (fs.denied read path)) [
  | inl d ↦ absurd (not_done (rw d at h))
  | inr d ↦ elim (Option-cases (fs.files path)) [
    | inl e ↦ absurd (not_done (rw (d, e) at h))
    | inr (g, e) ↦
        let both = done_inj (rw (d, e) at h) in
        (sym both.1, (g.mtime, e ∙ (λ i. some (record { contents = both.0 i; mtime = g.mtime }))))
  ]
]

-- What `read_outputs` leaves in the entry, which had none of the names.
pub record Read (outputs : Outputs) (fs f : Fs) (old entry : CacheEntry) : Type 0 where
  pub same_fs : f ≡ fs
  pub stored : All (Stored entry fs.files) outputs
  pub others : (k : Text) → Absent k outputs → get_object entry k ≡ get_object old k

Read-step :
    (k path : Text) (outputs : Outputs) (fs f : Fs) (old entry : CacheEntry)
    → Distinct ((k, path) ∷ outputs)
    → All (λ o. get_object old o.0 ≡ none) ((k, path) ∷ outputs)
    → ((g : Fs) (more : CacheEntry)
        → read_outputs outputs g more ≡ done entry f
        → All (λ o. get_object more o.0 ≡ none) outputs
        → Read outputs g f more entry)
    → (o : Io Bytes) → open_file fs path ≡ o
    → elim o [ fails g ↦ fails g | done bytes g ↦ read_outputs outputs g (put_object old k bytes) ]
      ≡ done entry f
    → Read ((k, path) ∷ outputs) fs f old entry
unfolding put_object get_object
Read-step k path outputs fs f old entry d a ih (fails g) e h = absurd (not_done h)
Read-step k path outputs fs f old entry d a ih (done bytes g) e h =
    let opened = open_file_done fs path bytes g e in
    let more = old ++ (k, bytes) ∷ [] in
    let rest = ih fs more (subst (λ x. read_outputs outputs x more ≡ done entry f) opened.0 h) (
      All-map _ (λ o. find o.0 more ≡ none) outputs
        (λ o both. find-snoc_ne o.0 k bytes old (λ p. both.0 (sym p)) ∙ both.1)
        (All-zip _ _ outputs d.0 a.1)) in
    record {
      same_fs = rest.same_fs;
      stored = (
        (bytes, rest.others k d.0 ∙ find_last k bytes old (Absent-of_find k old a.0), opened.1),
        rest.stored,
      );
      others = λ j away. rest.others j away.1 ∙ find-snoc_ne j k bytes old away.0;
    }

pub read_outputs-Read :
    (outputs : Outputs) (fs f : Fs) (old entry : CacheEntry)
    → read_outputs outputs fs old ≡ done entry f
    → Distinct outputs
    → All (λ o. get_object old o.0 ≡ none) outputs
    → Read outputs fs f old entry
unfolding read_outputs put_object get_object
read_outputs-Read [] fs f old entry h d a =
    let both = done_inj h in
    record { same_fs = sym both.1; stored = tt; others = λ k x. ap (find k) (sym both.0) }
read_outputs-Read ((k, path) ∷ outputs) fs f old entry h d a =
    Read-step k path outputs fs f old entry d a
      (λ g more h' none_yet. read_outputs-Read outputs g f more entry h' d.1 none_yet)
      (open_file fs path) refl h

write_object-Quiet :
    (entry : CacheEntry) (k path : Text) (bytes : Bytes) (fs : Fs)
    → Quiet fs
    → get_object entry k ≡ some bytes
    → write_object fs path (get_object entry k)
      ≡ done tt (record fs {
        files = update fs.files path (some (record { contents = bytes; mtime = fs.now }));
      })
unfolding write_object
write_object-Quiet entry k path bytes fs q e =
    ap (write_object fs path) e ∙ write_file-Quiet fs path bytes q

-- A hit writes each object into its file.
pub write_outputs-Stored :
    (entry : CacheEntry) (outputs : Outputs) (fs : Fs)
    → Quiet fs
    → All (λ o. (bytes : Bytes) × (get_object entry o.0 ≡ some bytes)) outputs
    → DistinctPaths outputs
    → (files : Text → Option File) × (write_outputs entry outputs fs
        ≡ done tt (record fs { files = files }))
      × All (Stored entry files) outputs
      × ((q : Text) → All (λ o. o.1 ≢ q) outputs → files q ≡ fs.files q)
unfolding write_outputs
write_outputs-Stored entry [] fs q h d = (fs.files, refl, tt, λ x a. refl)
write_outputs-Stored entry ((k, path) ∷ outputs) fs q h d =
    let (bytes, e) = h.0 in
    let f : File = record { contents = bytes; mtime = fs.now } in
    let fs' = record fs { files = update fs.files path (some f) } in
    let rest = write_outputs-Stored entry outputs fs' q h.1 d.1 in
    (
      rest.0,
      rw (write_object-Quiet entry k path bytes fs q e, write_outputs) rest.1,
      ((bytes, e, (fs.now, rest.3 path d.0 ∙ update_self fs.files path (some f))), rest.2),
      λ x away. rest.3 x away.1 ∙ update_ne fs.files path x (some f) away.0,
    )

-- The streams are found again, and hide no object.
pub get_object-put_stream_self :
    (e : CacheEntry) (name : Text) (bytes : Bytes)
    → get_object e name ≡ none
    → bytes_or_empty (get_object (put_stream e name bytes) name) ≡ bytes
unfolding put_stream put_object get_object
get_object-put_stream_self e name [] h = rw h
get_object-put_stream_self e name (b ∷ bytes) h =
    rw (find_last name (b ∷ bytes) e (Absent-of_find name e h))

pub get_object-put_stream_ne :
    (e : CacheEntry) (name k : Text) (bytes : Bytes)
    → name ≢ k
    → get_object (put_stream e name bytes) k ≡ get_object e k
unfolding put_stream put_object get_object
get_object-put_stream_ne e name k [] h = refl
get_object-put_stream_ne e name k (b ∷ bytes) h = find-snoc_ne k name (b ∷ bytes) e h

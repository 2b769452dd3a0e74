-- ===== src/Fs.antt =====
-- The part of `std::fs` that the program uses: a map from paths to files with faults that the
-- environment chooses. Directories are not recorded: a path that cannot be made is `denied`.
use sccache.Prelude.{
  ℕ, zero, suc, Text, text_eq, text_eq_iff, text_eq_refl, List, [], ◌∷◌, ◌≡◌, ◌≢◌, Option, none,
  some, Bool, false, if◌then◌else◌, arith,
}

pub record File : Type 0 where
  pub contents : List ℕ
  pub mtime : ℕ

pub data Call : Type 0 where
  mkdir create write rename copy remove touch read stat : Call

-- `partial` is how many bytes a failing `write_all` leaves behind.
pub record Fs : Type 0 where
  pub files : Text → Option File
  pub denied : Call → Text → Bool
  pub now : ℕ
  pub partial : ℕ

pub data Io (A : Type 0) : Type 0 where
  done : A → Fs → Io A
  fails : Fs → Io A

abbrev pub update : (Text → Option File) → Text → Option File → Text → Option File
update files p f = λ q. if text_eq p q then f else files q

pub update_self : (files : Text → Option File) (p : Text) (f : Option File) → update files p f p ≡ f
update_self files p f = rw (text_eq_refl p)

pub update_ne :
    (files : Text → Option File) (p q : Text) (f : Option File)
    → p ≢ q
    → update files p f q ≡ files q
update_ne files p q f h = ground (arith, text_eq_iff p q)

-- Nothing fails but for want of a file.
abbrev pub Quiet : Fs → Type 0
Quiet fs = (call : Call) (p : Text) → fs.denied call p ≡ false

take_bytes : ℕ → List ℕ → List ℕ
take_bytes zero bs = []
take_bytes (suc n) [] = []
take_bytes (suc n) (b ∷ bs) = b ∷ take_bytes n bs

unfoldable pub create_dir_all : Fs → Text → Io (Unit {0})
create_dir_all fs p = if fs.denied mkdir p then fails fs else done tt fs

-- `File::create`, which truncates, then `write_all`.
unfoldable pub write_file : Fs → Text → List ℕ → Io (Unit {0})
unfolding take_bytes
write_file fs p bytes =
    let put = λ (bs : List ℕ). record fs {
      files = update fs.files p (some (record { contents = bs; mtime = fs.now }));
    } in
    if fs.denied create p
    then fails fs
    else if fs.denied write p
    then fails (put (take_bytes fs.partial bytes))
    else done tt (put bytes)

unfoldable pub metadata : Fs → Text → Option File
metadata fs p = if fs.denied stat p then none else fs.files p

unfoldable pub remove_file : Fs → Text → Io (Unit {0})
remove_file fs p =
    let gone = record fs { files = update fs.files p none } in
    if fs.denied remove p
    then fails fs
    else elim (fs.files p) [ none ↦ fails fs | some f ↦ done tt gone ]

unfoldable pub rename_file : Fs → Text → Text → Io (Unit {0})
rename_file fs p q = if fs.denied rename p then fails fs else elim (fs.files p) [
  | none ↦ fails fs
  | some f ↦ done tt (record fs { files = update (update fs.files p none) q (some f) })
]

unfoldable pub copy_file : Fs → Text → Text → Io (Unit {0})
copy_file fs p q = if fs.denied copy p then fails fs else elim (fs.files p) [
  | none ↦ fails fs
  | some f ↦ done tt (record fs {
    files = update fs.files q (some (record { contents = f.contents; mtime = fs.now }));
  })
]

unfoldable pub set_file_times : Fs → Text → ℕ → Io (Unit {0})
set_file_times fs p t = if fs.denied touch p then fails fs else elim (fs.files p) [
  | none ↦ fails fs
  | some f ↦
      done tt (record fs {
        files = update fs.files p (some (record { contents = f.contents; mtime = t }));
      })
]

-- `File::open`, and the bytes that the handle reads.
unfoldable pub open_file : Fs → Text → Io (List ℕ)
open_file fs p =
    if fs.denied read p
    then fails fs
    else elim (fs.files p) [ none ↦ fails fs | some f ↦ done f.contents fs ]

-- On a fault-free disk each call does what it is meant to.
pub write_file-Quiet :
    (fs : Fs) (p : Text) (bytes : List ℕ)
    → Quiet fs
    → write_file fs p bytes
      ≡ done tt (record fs {
        files = update fs.files p (some (record { contents = bytes; mtime = fs.now }));
      })
unfolding write_file
write_file-Quiet fs p bytes q = rw (q create p, q write p)

pub create_dir_all-Quiet : (fs : Fs) (p : Text) → Quiet fs → create_dir_all fs p ≡ done tt fs
unfolding create_dir_all
create_dir_all-Quiet fs p q = rw (q mkdir p)

pub set_file_times-Quiet :
    (fs : Fs) (p : Text) (bs : List ℕ) (m t : ℕ)
    → Quiet fs
    → fs.files p ≡ some (record { contents = bs; mtime = m })
    → set_file_times fs p t
      ≡ done tt
          (record fs { files = update fs.files p (some (record { contents = bs; mtime = t })) })
unfolding set_file_times
set_file_times-Quiet fs p bs m t q e = rw (q touch p, e)

pub open_file-Quiet :
    (fs : Fs) (p : Text) (f : File)
    → Quiet fs
    → fs.files p ≡ some f
    → open_file fs p ≡ done f.contents fs
unfolding open_file
open_file-Quiet fs p f q e = rw (q read p, e)

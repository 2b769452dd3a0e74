-- ===== src/Kinds/Detected.antt =====
-- What `detect_compiler_kind` of src/compiler/compiler.rs has seen when it detects a kind.
use sccache.Prelude.{
  Text, text_eq, codes, List, [], ◌∷◌, ◌++◌, ◌≡◌, refl, ap, Option, none, some, All, Option-cases,
  Bool-cases, inl, inr, ◌∙◌, ◌≢◌, sym, subst, text_eq_iff, ne_of_text_eq,
}
use sccache.Fs.{Fs}
use sccache.Compiler.{CompilerKind, gcc, clang, msvc}
use sccache.Compiler.CachedCompile.{Output}
use sccache.Compiler.Process.{System, Temp, write_temp_file}
use sccache.Msvc.Prefix.{detect_showincludes_prefix, lines}
use sccache.Cache.{Bytes}
use sccache.Kinds.Detect.{
  test_program, Named, names_gcc, names_clang, names_msvc, named, first_named, with_prefix, kind_of,
  read_kind, run_on, detect_compiler_kind,
}

-- A line is the name of no compiler.
abbrev pub Nameless : Text → Type 0
Nameless l = (l ≢ codes "gcc") × (l ≢ codes "clang") × (l ≢ codes "msvc")

-- The first line that is a compiler's name is this one.
pub record FirstNamed (ls : List Text) (name : Text) : Type 0 where
  pub before : List Text
  pub after : List Text
  pub split : ls ≡ before ++ name ∷ after
  pub none_before : All Nameless before

abbrev word : Named → Text
word names_gcc = codes "gcc"
word names_clang = codes "clang"
word names_msvc = codes "msvc"

unnamed : {n : Named} → ◌≡◌ {A = Option Named} (some n) none → ⊥
unnamed h = cc

same_name : {m n : Named} → some m ≡ some n → m ≡ n
same_name h = cc

named-Nameless : (l : Text) → named l ≡ none → Nameless l
unfolding named
named-Nameless l h = elim (Bool-cases (text_eq l (codes "gcc"))) [
  | inl e ↦ absurd (unnamed (rw (e, named) at h))
  | inr e1 ↦ elim (Bool-cases (text_eq l (codes "clang"))) [
    | inl e ↦ absurd (unnamed (rw (e1, named, e) at h))
    | inr e2 ↦ elim (Bool-cases (text_eq l (codes "msvc"))) [
      | inl e ↦ absurd (unnamed (rw (e1, named, e2, e) at h))
      | inr e3 ↦ (ne_of_text_eq l _ e1, ne_of_text_eq l _ e2, ne_of_text_eq l _ e3)
    ]
  ]
]

named-word : (l : Text) (n : Named) → named l ≡ some n → l ≡ word n
unfolding named
named-word l n h = elim (Bool-cases (text_eq l (codes "gcc"))) [
  | inl e ↦ (text_eq_iff l _).0 e ∙ ap word (same_name (rw (e, named) at h))
  | inr e1 ↦ elim (Bool-cases (text_eq l (codes "clang"))) [
    | inl e ↦ (text_eq_iff l _).0 e ∙ ap word (same_name (rw (e1, named, e) at h))
    | inr e2 ↦ elim (Bool-cases (text_eq l (codes "msvc"))) [
      | inl e ↦ (text_eq_iff l _).0 e ∙ ap word (same_name (rw (e1, named, e2, e) at h))
      | inr e3 ↦ absurd (unnamed (sym (rw (e1, named, e2, e3) at h)))
    ]
  ]
]

first_named-FirstNamed :
    (ls : List Text) (n : Named) → first_named ls ≡ some n → FirstNamed ls (word n)
unfolding first_named
first_named-FirstNamed [] n h = absurd (unnamed (sym h))
first_named-FirstNamed (l ∷ ls) n h = elim (Option-cases (named l)) [
  | inl e ↦
      let r = first_named-FirstNamed ls n (rw (e, first_named) at h) in
      record {
        before = l ∷ r.before;
        after = r.after;
        split = ap (λ m. l ∷ m) r.split;
        none_before = (named-Nameless l e, r.none_before);
      }
  | inr (m, e) ↦ record {
    before = [];
    after = ls;
    split = ap (λ x. x ∷ ls) (named-word l n (e ∙ (rw (e, first_named) at h)));
    none_before = tt;
  }
]

kind_name : CompilerKind → Named
kind_name gcc = names_gcc
kind_name clang = names_clang
kind_name (msvc prefix) = names_msvc

-- What a compiler calls itself in the answer to the test program.
abbrev pub kind_word : CompilerKind → Text
kind_word gcc = codes "gcc"
kind_word clang = codes "clang"
kind_word (msvc prefix) = codes "msvc"

kind_word_lem : (kind : CompilerKind) → word (kind_name kind) ≡ kind_word kind
unfolding kind_name
kind_word_lem gcc = refl
kind_word_lem clang = refl
kind_word_lem (msvc prefix) = refl

-- What the answer to the test program says of a detected kind.
pub record Detected (utf8 : Bytes → Option Text) (answer : Option Output) (kind : CompilerKind)
    : Type 0 where
  pub out : Output
  pub answered : answer ≡ some out
  pub text : Text
  pub decoded : utf8 out.stdout ≡ some text
  pub first : FirstNamed (lines text) (kind_word kind)

abbrev pub Found : Type 0
Found = Fs × Option (Option CompilerKind)

module _ (system : System) (utf8 decode : Bytes → Option Text) (fs : Fs) (kind : CompilerKind) where
  unknown : {f : Fs} → ◌≡◌ {A = Found} (f, some none) (fs, some (some kind)) → ⊥
  unknown h = absurd_of (ap (λ x. x.1) h)
    where
      absurd_of : ◌≡◌ {A = Option (Option CompilerKind)} (some none) (some (some kind)) → ⊥
      absurd_of q = cc

  failed : {f : Fs} → ◌≡◌ {A = Found} (f, none) (fs, some (some kind)) → ⊥
  failed h = absurd_of (ap (λ x. x.1) h)
    where
      absurd_of : ◌≡◌ {A = Option (Option CompilerKind)} none (some (some kind)) → ⊥
      absurd_of q = cc

  same_kind :
      {f : Fs} {k : CompilerKind}
      → ◌≡◌ {A = Found} (f, some (some k)) (fs, some (some kind))
      → some (kind_name k) ≡ some (kind_name kind)
  same_kind h = ap (λ k. some (kind_name k)) (inj (ap (λ x. x.1) h))
    where
      inj : {a b : CompilerKind} → some (some a) ≡ some (some b) → a ≡ b
      inj q = cc

  with_prefix-name :
      (x : Fs × Option Text)
      → with_prefix system utf8 decode x ≡ (fs, some (some kind))
      → some names_msvc ≡ some (kind_name kind)
  unfolding with_prefix kind_name
  with_prefix-name (f, none) h = absurd (failed h)
  with_prefix-name (f, some prefix) h = same_kind h

  kind_of-name :
      (f : Fs) (o : Option Named)
      → kind_of system utf8 decode f o ≡ (fs, some (some kind))
      → o ≡ some (kind_name kind)
  unfolding kind_of kind_name
  kind_of-name f none h = absurd (unknown h)
  kind_of-name f (some names_gcc) h = same_kind h
  kind_of-name f (some names_clang) h = same_kind h
  kind_of-name f (some names_msvc) h =
      with_prefix-name (detect_showincludes_prefix system decode f) h

  read_kind-Detected :
      (o : Fs × Option Output)
      → read_kind system utf8 decode o ≡ (fs, some (some kind))
      → Detected utf8 o.1 kind
  unfolding read_kind
  read_kind-Detected (f, none) h = absurd (failed h)
  read_kind-Detected (f, some out) h = elim (Option-cases (utf8 out.stdout)) [
    | inl e ↦ absurd (failed (rw (e, read_kind) at h))
    | inr (text, e) ↦ record {
      out = out;
      answered = refl;
      text = text;
      decoded = e;
      first = subst (FirstNamed (lines text)) (kind_word_lem kind) (
          first_named-FirstNamed (lines text) (kind_name kind)
            (kind_of-name f (first_named (lines text)) (rw (e, read_kind) at h)));
    }
  ]

  run_on-Detected :
      (o : Fs × Option Temp)
      → run_on system utf8 decode o ≡ (fs, some (some kind))
      → (f : Fs) × (dir : Text) × (src : Text) × (o ≡ (f, some (dir, src)))
        × Detected utf8 (system.run f (codes "-E" ∷ src ∷ []) none).1 kind
  unfolding run_on
  run_on-Detected (f, none) h = absurd (failed h)
  run_on-Detected (f, some (dir, src)) h =
      let (f', answer) = system.run f (codes "-E" ∷ src ∷ []) none in
      (f, dir, src, refl, read_kind-Detected (system.drop_temp f' dir, answer) h)

  -- If a compiler kind is detected, the test program was written to a temporary file, the compiler
  -- was run to preprocess that file, and the first line of what it wrote to stdout that is the name
  -- of a compiler is the name of this kind.
  pub detect_compiler_kind-Detected :
      (fs0 : Fs)
      → detect_compiler_kind system utf8 decode fs0 ≡ (fs, some (some kind))
      → (f : Fs) × (dir : Text) × (src : Text) × (write_temp_file system fs0 (codes "testfile.c") (
            codes
              "#if defined(_MSC_VER)\nmsvc\n#elif defined(__clang__)\nclang\n#elif defined(__GNUC__)\ngcc\n#endif\n")
          ≡ (f, some (dir, src)))
        × Detected utf8 (system.run f (codes "-E" ∷ src ∷ []) none).1 kind
  unfolding detect_compiler_kind
  detect_compiler_kind-Detected fs0 h =
      run_on-Detected (write_temp_file system fs0 (codes "testfile.c") test_program) h

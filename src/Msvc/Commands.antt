-- ===== src/Msvc/Commands.antt =====
-- `msvc::compile`: the compilation of a temporary file, and of the original input if that fails.
use sccache.Prelude.{
  Text, codes, List, [], ◌∷◌, ◌++◌, ◌≡◌, refl, Option, none, some, Bool, true, false, ap,
  if◌then◌else◌, Bool-cases, Option-cases, inl, inr, sym, ◌∙◌, ◌↔◌, subst,
}
use sccache.FilePath.{join}
use sccache.FilePath.Names.{file_name}
use sccache.Fs.{Fs, File, metadata}
use sccache.Compiler.{ParsedArguments, get_output}
use sccache.Compiler.CachedCompile.{Output, Cacheable, yes_cacheable, no_cacheable, success}
use sccache.Compiler.Process.{System, Temp, write_temp_file}
use sccache.Cache.{Bytes}

-- `Path::exists`
unfoldable pub exists : Fs → Text → Bool
exists fs path = elim (metadata fs path) [ none ↦ false | some f ↦ true ]

-- An object file beside a PDB that is there already cannot be cached.
unfoldable pub cacheable_with : Fs → Text → Option Text → Cacheable
unfolding exists
cacheable_with fs cwd none = yes_cacheable
cacheable_with fs cwd (some pdb) = if exists fs (join cwd pdb) then no_cacheable else yes_cacheable

-- The first command reads the temporary file, the second the original input.
unfoldable pub attempt_args : ParsedArguments → Text → Text → List Text
attempt_args p out temp = codes "-c" ∷ (codes "-Fo" ++ out) ∷ (p.common_args ++ temp ∷ [])

unfoldable pub retry_args : ParsedArguments → Text → List Text
retry_args p out = codes "-c" ∷ p.input ∷ (codes "-Fo" ++ out) ∷ p.common_args

abbrev pub with_cacheable : Cacheable → Fs × Option Output → Fs × Option (Cacheable × Output)
with_cacheable c (fs, none) = (fs, none)
with_cacheable c (fs, some out) = (fs, some (c, out))

module _ (system : System) (p : ParsedArguments) (cwd : Text) where
  unfoldable pub or_retry : Text → Cacheable → Fs × Option Output → Fs × Option (Cacheable × Output)
  unfolding retry_args
  or_retry out c (fs, none) = (fs, none)
  or_retry out c (fs, some result) =
      if success result.status
      then (fs, some (c, result))
      else with_cacheable c (system.run fs (retry_args p out) none)

  -- The temporary directory goes when the first command has ended, or could not be run.
  unfoldable pub drop_after : Text → Fs × Option Output → Fs × Option Output
  drop_after dir (fs, result) = (system.drop_temp fs dir, result)

  unfoldable pub attempt : Text → Cacheable → Fs × Option Temp → Fs × Option (Cacheable × Output)
  unfolding or_retry drop_after attempt_args
  attempt out c (fs, none) = (fs, none)
  attempt out c (fs, some (dir, temp)) =
      or_retry out c (drop_after dir (system.run fs (attempt_args p out temp) none))

  unfoldable pub with_name :
      Text → Cacheable → Option Text → Bytes → Fs → Fs × Option (Cacheable × Output)
  unfolding attempt
  with_name out c none preprocessed fs = (fs, none)
  with_name out c (some name) preprocessed fs =
      attempt out c (write_temp_file system fs name preprocessed)

  unfoldable pub with_object : Option Text → Bytes → Fs → Fs × Option (Cacheable × Output)
  unfolding with_name cacheable_with
  with_object none preprocessed fs = (fs, none)
  with_object (some out) preprocessed fs =
      with_name out (cacheable_with fs cwd (get_output (codes "pdb") p.outputs)) (file_name p.input)
        preprocessed fs

  unfoldable pub compile : Fs → Bytes → Fs × Option (Cacheable × Output)
  unfolding with_object
  compile fs preprocessed = with_object (get_output (codes "obj") p.outputs) preprocessed fs

  -- The original input was compiled in a state `fs`, with the result.
  abbrev pub Retried : Fs → Output → Type 0
  Retried fs' result =
      (fs : Fs) × (out : Text) × (get_output (codes "obj") p.outputs ≡ some out)
      × (system.run fs (retry_args p out) none ≡ (fs', some result))

  -- What is true of an answer: how it may be cached, and what a failure is.
  abbrev pub Answers : Text → Cacheable → Fs × Option (Cacheable × Output) → Type 0
  Answers out c o =
      (fs' : Fs) (c' : Cacheable) (result : Output)
      → o ≡ (fs', some (c', result))
      → (c' ≡ c)
        × (success result.status ≡ false
            → (fs : Fs) × (system.run fs (retry_args p out) none ≡ (fs', some result)))

  no_answer :
      {fs fs' : Fs} {A : Type 0} {a : A} → ◌≡◌ {A = Fs × Option A} (fs, none) (fs', some a) → ⊥
  no_answer h = not_given (ap (λ x. x.1) h)
    where
      not_given : {B : Type 0} {b : B} → ◌≡◌ {A = Option B} none (some b) → ⊥
      not_given g = cc

  cacheable_inj :
      (c : Cacheable) (o : Fs × Option Output) (fs' : Fs) (c' : Cacheable) (result : Output)
      → with_cacheable c o ≡ (fs', some (c', result))
      → (c' ≡ c) × (o ≡ (fs', some result))
  cacheable_inj c (fs, none) fs' c' result h = absurd (no_answer h)
  cacheable_inj c (fs, some out) fs' c' result h = (cc, cc)

  or_retry-Answers :
      (out : Text) (c : Cacheable) (o : Fs × Option Output) → Answers out c (or_retry out c o)
  unfolding or_retry
  or_retry-Answers out c (fs, none) fs' c' result h = absurd (no_answer h)
  or_retry-Answers out c (fs, some first) fs' c' result h =
      elim (Bool-cases (success first.status)) [
        | inl good ↦ first_one good (rw (good, or_retry) at h)
        | inr failed ↦
            let parts =
              cacheable_inj c (system.run fs (retry_args p out) none) fs' c' result
                (rw (failed, or_retry) at h) in
            (parts.0, λ bad. (fs, parts.1))
      ]
    where
      first_one :
          success first.status ≡ true
          → ◌≡◌ {A = Fs × Option (Cacheable × Output)}
              (fs, some (c, first))
              (fs', some (c', result))
          → (c' ≡ c)
            × (success result.status ≡ false
                → (fs : Fs) × (system.run fs (retry_args p out) none ≡ (fs', some result)))
      first_one good g = (cc, λ bad. absurd (cc))

  attempt-Answers :
      (out : Text) (c : Cacheable) (o : Fs × Option Temp) → Answers out c (attempt out c o)
  unfolding attempt
  attempt-Answers out c (fs, none) fs' c' result h = absurd (no_answer h)
  attempt-Answers out c (fs, some (dir, temp)) fs' c' result h =
      or_retry-Answers out c (drop_after dir (system.run fs (attempt_args p out temp) none)) fs' c'
        result h

  with_name-Answers :
      (out : Text) (c : Cacheable) (name : Option Text) (preprocessed : Bytes) (fs : Fs)
      → Answers out c (with_name out c name preprocessed fs)
  unfolding with_name
  with_name-Answers out c none preprocessed fs fs' c' result h = absurd (no_answer h)
  with_name-Answers out c (some name) preprocessed fs fs' c' result h =
      attempt-Answers out c (write_temp_file system fs name preprocessed) fs' c' result h

  with_object-Answers :
      (o : Option Text) (fs fs' : Fs) (preprocessed : Bytes) (c' : Cacheable) (result : Output)
      → get_output (codes "obj") p.outputs ≡ o
      → with_object o preprocessed fs ≡ (fs', some (c', result))
      → (c' ≡ cacheable_with fs cwd (get_output (codes "pdb") p.outputs))
        × (success result.status ≡ false → Retried fs' result)
  unfolding with_object
  with_object-Answers none fs fs' preprocessed c' result e h = absurd (no_answer h)
  with_object-Answers (some out) fs fs' preprocessed c' result e h =
      let a =
        with_name-Answers out (cacheable_with fs cwd (get_output (codes "pdb") p.outputs))
          (file_name p.input) preprocessed fs fs' c' result h in
      (a.0, λ bad. let (fs0, ran) = a.1 bad in (fs0, out, e, ran))

  -- A PDB among the outputs was there.
  abbrev pub PdbThere : Fs → Type 0
  PdbThere fs =
      (pdb : Text) × (file : File) × (get_output (codes "pdb") p.outputs ≡ some pdb)
      × (metadata fs (join cwd pdb) ≡ some file)

  no_pdb : {A : Type 0} {x : A} → ◌≡◌ {A = Option A} none (some x) → ⊥
  no_pdb h = cc

  no-PdbThere : (fs : Fs) → get_output (codes "pdb") p.outputs ≡ none → PdbThere fs → ⊥
  no-PdbThere fs e (pdb, file, given, there) = no_pdb (sym e ∙ given)

  no_file_there :
      (fs : Fs) (pdb : Text)
      → get_output (codes "pdb") p.outputs ≡ some pdb
      → metadata fs (join cwd pdb) ≡ none
      → PdbThere fs
      → ⊥
  no_file_there fs pdb e missing (pdb', file, given, there) =
      no_pdb (sym missing ∙ subst (λ x. metadata fs (join cwd x) ≡ some file) (same given) there)
    where
      inj : {a b : Text} → some a ≡ some b → a ≡ b
      inj h = cc

      same : get_output (codes "pdb") p.outputs ≡ some pdb' → pdb' ≡ pdb
      same given = inj (sym given ∙ e)

  not_no : yes_cacheable ≡ no_cacheable → ⊥
  not_no h = cc

  cacheable_with-PdbThere :
      (fs : Fs)
      → (cacheable_with fs cwd (get_output (codes "pdb") p.outputs) ≡ no_cacheable) ↔ PdbThere fs
  unfolding cacheable_with exists
  cacheable_with-PdbThere fs = elim (Option-cases (get_output (codes "pdb") p.outputs)) [
    | inl e ↦ (λ h. absurd (not_no (rw (e, cacheable_with) at h)), λ x. absurd (no-PdbThere fs e x))
    | inr (pdb, e) ↦ elim (Option-cases (metadata fs (join cwd pdb))) [
      | inl missing ↦ (
        λ h. absurd (not_no (rw (e, cacheable_with, exists, missing) at h)),
        λ x. absurd (no_file_there fs pdb e missing x),
      )
      | inr (file, there) ↦
          (λ h. (pdb, file, e, there), λ x. rw (e, cacheable_with, exists, there) refl)
    ]
  ]

  -- If MSVC's compilation answers, then it is reported as not cacheable exactly if a PDB among the
  -- outputs was there before it began, and a failed status is that of compiling the original input
  -- into the object file, with the common arguments.
  pub compile-PdbThere :
      (fs fs' : Fs) (preprocessed : Bytes) (c : Cacheable) (result : Output)
      → compile fs preprocessed ≡ (fs', some (c, result))
      → ((c ≡ no_cacheable) ↔ PdbThere fs)
        × (success result.status ≡ false
            → (between : Fs) × (out : Text) × (get_output (codes "obj") p.outputs ≡ some out)
              × (system.run between
                    (codes "-c" ∷ p.input ∷ (codes "-Fo" ++ out) ∷ p.common_args)
                    none
                  ≡ (fs', some result)))
  unfolding compile retry_args
  compile-PdbThere fs fs' preprocessed c result h =
      let a =
        with_object-Answers (get_output (codes "obj") p.outputs) fs fs' preprocessed c result refl
          h in
      let iff = cacheable_with-PdbThere fs in
      ((λ e. iff.0 (sym a.0 ∙ e), λ there. a.0 ∙ iff.1 there), a.1)

-- ===== src/Clang.antt =====
-- src/compiler/clang.rs: the arguments that clang adds to gcc's, and its compilation, which is tried
-- again on the original input when -Werror may have failed it.
mod Tests
use sccache.Prelude.{
  Text, codes, contains, starts_with, List, [], ◌∷◌, ◌++◌, ◌≡◌, refl, Option, none, some, Bool,
  true, false, not, ◌||◌, if◌then◌else◌, ◌⊎◌, inl, inr, Bool-cases, ap, arith,
}
use sccache.FilePath.Names.{file_name}
use sccache.Fs.{Fs}
use sccache.Compiler.{ParsedArguments, get_output}
use sccache.Compiler.CachedCompile.{Output, Cacheable, yes_cacheable, success}
use sccache.Compiler.Process.{System, Temp, write_temp_file}
use sccache.Cache.{Bytes}
use sccache.Gcc
use sccache.Gcc.{args_with_value}

-- `clang::ARGS_WITH_VALUE`
abbrev pub more_args_with_value : List Text
more_args_with_value = codes "-arch" ∷ []

unfoldable pub argument_takes_value : Text → Bool
argument_takes_value arg = contains args_with_value arg || contains more_args_with_value arg

unfoldable pub any_werror : List Text → Bool
any_werror [] = false
any_werror (a ∷ args) = starts_with (codes "-Werror") a || any_werror args

-- The first command reads the temporary file, the second the original input.
unfoldable pub attempt_args : ParsedArguments → Text → Text → List Text
attempt_args p out temp = codes "-c" ∷ codes "-o" ∷ out ∷ (p.common_args ++ temp ∷ [])

unfoldable pub retry_args : ParsedArguments → Text → List Text
retry_args p out = codes "-c" ∷ p.input ∷ codes "-o" ∷ out ∷ p.common_args

abbrev pub cacheable : Fs × Option Output → Fs × Option (Cacheable × Output)
cacheable (fs, none) = (fs, none)
cacheable (fs, some out) = (fs, some (yes_cacheable, out))

module _ (system : System) (p : ParsedArguments) where
  unfoldable pub or_retry : Text → Fs × Option Output → Fs × Option (Cacheable × Output)
  unfolding any_werror retry_args
  or_retry out (fs, none) = (fs, none)
  or_retry out (fs, some result) =
      if not (any_werror p.common_args)
      then (fs, some (yes_cacheable, result))
      else if not (success result.status)
      then cacheable (system.run fs (retry_args p out) none)
      else (fs, some (yes_cacheable, result))

  -- The temporary directory goes when the first command has ended, or could not be run.
  unfoldable pub drop_after : Text → Fs × Option Output → Fs × Option Output
  drop_after dir (fs, result) = (system.drop_temp fs dir, result)

  unfoldable pub attempt : Text → Fs × Option Temp → Fs × Option (Cacheable × Output)
  unfolding or_retry drop_after attempt_args
  attempt out (fs, none) = (fs, none)
  attempt out (fs, some (dir, temp)) =
      or_retry out (drop_after dir (system.run fs (attempt_args p out temp) none))

  unfoldable pub with_name :
      Option Text → Option Text → Bytes → Fs → Fs × Option (Cacheable × Output)
  unfolding attempt
  with_name none out preprocessed fs = (fs, none)
  with_name (some name) none preprocessed fs = (fs, none)
  with_name (some name) (some out) preprocessed fs =
      attempt out (write_temp_file system fs name preprocessed)

  -- `clang::compile`
  unfoldable pub compile : Fs → Bytes → Fs × Option (Cacheable × Output)
  unfolding with_name
  compile fs preprocessed =
      with_name (file_name p.input) (get_output (codes "obj") p.outputs) preprocessed fs

  -- The original input was compiled in a state `fs`, with the result.
  abbrev pub Retried : Fs → Output → Type 0
  Retried fs' result =
      (fs : Fs) × (out : Text) × (get_output (codes "obj") p.outputs ≡ some out)
      × (system.run fs (retry_args p out) none ≡ (fs', some result))

  no_answer :
      {fs fs' : Fs} {A : Type 0} {a : A} → ◌≡◌ {A = Fs × Option A} (fs, none) (fs', some a) → ⊥
  no_answer h = not_given (ap (λ x. x.1) h)
    where
      not_given : {B : Type 0} {b : B} → ◌≡◌ {A = Option B} none (some b) → ⊥
      not_given g = cc

  cacheable_inj :
      (o : Fs × Option Output) (fs' : Fs) (c : Cacheable) (result : Output)
      → cacheable o ≡ (fs', some (c, result))
      → o ≡ (fs', some result)
  cacheable_inj (fs, none) fs' c result h = absurd (no_answer h)
  cacheable_inj (fs, some out) fs' c result h = cc

  -- How a compilation ends well: in the first attempt, if it succeeded or there is no -Werror, or in
  -- the second.
  by_attempt :
      (out : Text) (o : Fs × Option Output) (fs' : Fs) (c : Cacheable) (result : Output)
      → get_output (codes "obj") p.outputs ≡ some out
      → success result.status ≡ false
      → or_retry out o ≡ (fs', some (c, result))
      → (any_werror p.common_args ≡ false) ⊎ Retried fs' result
  unfolding or_retry
  by_attempt out (fs, none) fs' c result e bad h = absurd (no_answer h)
  by_attempt out (fs, some first) fs' c result e bad h =
      elim (Bool-cases (any_werror p.common_args)) [
        | inr absent ↦ inl absent
        | inl werror ↦ elim (Bool-cases (success first.status)) [
          | inl good ↦ absurd (both good (rw (werror, good, or_retry) at h))
          | inr failed ↦ inr (
            fs,
            out,
            e,
            cacheable_inj (system.run fs (retry_args p out) none) fs' c result
                (rw (werror, failed, or_retry) at h),
          )
        ]
      ]
    where
      both :
          success first.status ≡ true
          → ◌≡◌ {A = Fs × Option (Cacheable × Output)}
              (fs, some (yes_cacheable, first))
              (fs', some (c, result))
          → ⊥
      both good g = cc

  by_temp :
      (out : Text) (o : Fs × Option Temp) (fs' : Fs) (c : Cacheable) (result : Output)
      → get_output (codes "obj") p.outputs ≡ some out
      → success result.status ≡ false
      → attempt out o ≡ (fs', some (c, result))
      → (any_werror p.common_args ≡ false) ⊎ Retried fs' result
  unfolding attempt
  by_temp out (fs, none) fs' c result e bad h = absurd (no_answer h)
  by_temp out (fs, some (dir, temp)) fs' c result e bad h =
      by_attempt out (drop_after dir (system.run fs (attempt_args p out temp) none)) fs' c result e
        bad h

  by_name :
      (name o : Option Text) (fs fs' : Fs) (preprocessed : Bytes) (c : Cacheable) (result : Output)
      → get_output (codes "obj") p.outputs ≡ o
      → success result.status ≡ false
      → with_name name o preprocessed fs ≡ (fs', some (c, result))
      → (any_werror p.common_args ≡ false) ⊎ Retried fs' result
  unfolding with_name
  by_name none o fs fs' preprocessed c result e bad h = absurd (no_answer h)
  by_name (some name) none fs fs' preprocessed c result e bad h = absurd (no_answer h)
  by_name (some name) (some out) fs fs' preprocessed c result e bad h =
      by_temp out (write_temp_file system fs name preprocessed) fs' c result e bad h

  pub compile_failed :
      (fs fs' : Fs) (preprocessed : Bytes) (c : Cacheable) (result : Output)
      → compile fs preprocessed ≡ (fs', some (c, result))
      → success result.status ≡ false
      → (any_werror p.common_args ≡ false) ⊎ Retried fs' result
  unfolding compile
  compile_failed fs fs' preprocessed c result h bad =
      by_name (file_name p.input) (get_output (codes "obj") p.outputs) fs fs' preprocessed c result
        refl bad h

-- ===== src/S3/Chain.antt =====
-- `ChainProvider` of src/simples3/credential.rs.
use sccache.Prelude.{
  ℕ, Text, List, [], ◌∷◌, ◌++◌, ◌≡◌, refl, Option, none, some, ◌>>=◌, ap, ◌∙◌, Option-cases, inl,
  inr,
}
use sccache.S3.Credentials.{AwsCredentials}
use sccache.S3.Profile.{profile_credentials}

abbrev or_else : Option AwsCredentials → Option AwsCredentials → Option AwsCredentials
or_else none alternate = alternate
or_else (some c) alternate = some c

-- A `ProfileProvider`: the name of its profile, and the lines of its file if that can be opened.
abbrev pub ProfileProvider : Type 0
ProfileProvider = Text × Option (List Text)

module _ (now : ℕ) where
  -- The loop of `ChainProvider::credentials`. Every provider is asked, whatever the ones before it
  -- gave; `none` is a panic.
  unfoldable pub chain_profiles :
      Option AwsCredentials → List ProfileProvider → Option (Option AwsCredentials)
  unfolding profile_credentials
  chain_profiles creds [] = some creds
  chain_profiles creds ((name, file) ∷ providers) = do
    alternate ← profile_credentials now name file
    chain_profiles (or_else creds alternate) providers

  -- `ChainProvider::credentials`, with what the environment and the IAM role provide.
  unfoldable pub chain :
      Option AwsCredentials
      → List ProfileProvider
      → Option AwsCredentials
      → Option (Option AwsCredentials)
  unfolding chain_profiles
  chain environment providers iam = do
    creds ← chain_profiles environment providers
    some (or_else creds iam)

  -- What all providers give, unless one panics.
  unfoldable pub all_given : List ProfileProvider → Option (List (Option AwsCredentials))
  all_given [] = some []
  all_given ((name, file) ∷ providers) = do
    given ← profile_credentials now name file
    others ← all_given providers
    some (given ∷ others)

-- The first that is there.
unfoldable pub first_of : List (Option AwsCredentials) → Option AwsCredentials
first_of [] = none
first_of (none ∷ os) = first_of os
first_of (some c ∷ os) = some c

-- The sources in their order, unless a panic came first.
unfoldable pub first_unless_panic :
    Option AwsCredentials
    → Option (List (Option AwsCredentials))
    → Option AwsCredentials
    → Option (Option AwsCredentials)
unfolding first_of
first_unless_panic environment none iam = none
first_unless_panic environment (some given) iam = some (first_of (environment ∷ given ++ iam ∷ []))

first_of-or_else :
    (a b : Option AwsCredentials) (os : List (Option AwsCredentials))
    → first_of (or_else a b ∷ os) ≡ first_of (a ∷ b ∷ os)
unfolding first_of
first_of-or_else none b os = refl
first_of-or_else (some c) b os = refl

first_of_two : (a b : Option AwsCredentials) → or_else a b ≡ first_of (a ∷ b ∷ [])
unfolding first_of
first_of_two none none = refl
first_of_two none (some c) = refl
first_of_two (some c) b = refl

-- If a file of credentials makes its provider panic, then the chain panics, also where an earlier
-- source has credentials. Otherwise the chain provides what the first of its sources that has
-- credentials provides, the environment first, then the profiles in their order, then the IAM role.
pub chain-first_of :
    (now : ℕ) (environment : Option AwsCredentials) (providers : List ProfileProvider)
    (iam : Option AwsCredentials)
    → chain now environment providers iam
      ≡ first_unless_panic environment (all_given now providers) iam
unfolding chain chain_profiles all_given first_unless_panic
chain-first_of now environment [] iam = rw (first_of_two environment iam) refl
chain-first_of now environment ((name, file) ∷ providers) iam =
    elim (Option-cases (profile_credentials now name file)) [
      | inl e ↦ rw (e, ◌>>=◌) refl
      | inr (given, e) ↦
          let rest = chain-first_of now (or_else environment given) providers iam in
          elim (Option-cases (all_given now providers)) [
            | inl g ↦ rw (e, ◌>>=◌, g) (rw g at rest)
            | inr (os, g) ↦
                rw (e, ◌>>=◌, g)
                  ((rw g at rest) ∙ ap some (first_of-or_else environment given (os ++ iam ∷ [])))
          ]
    ]

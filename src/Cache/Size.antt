-- ===== src/Cache/Size.antt =====
-- src/cache/cache.rs: `parse_size` and `storage_from_environment`.
use sccache.Prelude.{
  ℕ, ◌*◌, ◌<◌, Text, text_eq, codes, [], ◌∷◌, ◌++◌, ◌≡◌, refl, Option, none, some, if◌then◌else◌,
  ◌==◌, Bool, ◌>>=◌, u64, u64_mod, decimal, read_decimal, read_decimal-decimal,
}
use sccache.FilePath.{join}

-- The last character, and what is before it.
unfoldable pub split_last : Text → Option (Text × ℕ)
split_last [] = none
split_last (c ∷ cs) = elim (split_last cs) [
  | none ↦ some ([], c)
  | some (before, last) ↦ some (c ∷ before, last)
]

unfoldable pub factor_of : ℕ → Option ℕ
factor_of c =
    if c == 75
    then some 1024
    else if c == 77
    then some 1048576
    else if c == 71
    then some 1073741824
    else if c == 84
    then some 1099511627776
    else none

-- `parse_size`: what the regular expression lets through is digits before one of K, M, G and T, and
-- `usize::from_str` takes those of ASCII; the product wraps.
unfoldable pub parse_size : Text → Option ℕ
unfolding split_last read_decimal factor_of
parse_size val = do
  (digits, suffix) ← split_last val
  size ← read_decimal u64_mod digits
  factor ← factor_of suffix
  some (u64 (factor * size))

abbrev pub ten_gigs : ℕ
ten_gigs = 10737418240

-- The storage that is made: an `S3Cache` with bucket and endpoint, or a `DiskCache` with directory
-- and size.
pub data Chosen : Type 0 where
  s3 : Text → Text → Chosen
  disk : Text → ℕ → Chosen

-- The variables, the directory that the system has for caches, the one for temporary files, and
-- whether an `S3Cache` can be made.
pub record Variables : Type 0 where
  pub bucket : Option Text
  pub endpoint : Option Text
  pub region : Option Text
  pub dir : Option Text
  pub cache_size : Option Text
  pub app_dir : Option Text
  pub temp_dir : Text
  pub has_home : Bool

unfoldable pub region_endpoint : Text → Option Text → Text
region_endpoint bucket none = bucket ++ codes ".s3.amazonaws.com"
region_endpoint bucket (some region) =
    if text_eq region (codes "us-east-1")
    then bucket ++ codes ".s3.amazonaws.com"
    else bucket ++ codes ".s3-" ++ region ++ codes ".amazonaws.com"

unfoldable pub endpoint_of : Variables → Text → Text
unfolding region_endpoint
endpoint_of v bucket = elim v.endpoint [
  | some endpoint ↦ endpoint ++ codes "/" ++ bucket
  | none ↦ region_endpoint bucket v.region
]

abbrev or_else {ℓ} : {A : Type ℓ} → Option A → A → A
or_else none a = a
or_else (some b) a = b

unfoldable pub disk_from_environment : Variables → Chosen
unfolding join parse_size
disk_from_environment v =
    let fallback = or_else v.app_dir (join v.temp_dir (codes "sccache_cache")) in
    let size = (do val ← v.cache_size; parse_size val) in
    disk (or_else v.dir fallback) (or_else size ten_gigs)

unfoldable pub storage_from_environment : Variables → Chosen
unfolding endpoint_of disk_from_environment
storage_from_environment v = elim v.bucket [
  | none ↦ disk_from_environment v
  | some bucket ↦ if v.has_home then s3 bucket (endpoint_of v bucket) else disk_from_environment v
]

split_last-append : (t : Text) (c : ℕ) → split_last (t ++ c ∷ []) ≡ some (t, c)
unfolding split_last
split_last-append [] c = refl
split_last-append (x ∷ t) c = rw (split_last-append t c) refl

-- A size in decimal with a suffix is read as that many times the factor of the suffix, modulo the
-- word: a size that does not fit is not refused.
pub parse_size-decimal :
    (n c f : ℕ)
    → n < u64_mod
    → factor_of c ≡ some f
    → parse_size (decimal n ++ c ∷ []) ≡ some (u64 (f * n))
unfolding parse_size
parse_size-decimal n c f h e =
    rw (split_last-append (decimal n) c, parse_size, ◌>>=◌, read_decimal-decimal n u64_mod h, e)
      refl

-- ===== src/Cache/SizeTests.antt =====
-- Sizes and environments.
use sccache.Prelude.{
  codes, text_eq, [], ◌∷◌, ◌++◌, ◌≡◌, refl, none, some, true, decimal, digits, read_decimal,
  read_digits, arith,
}
use sccache.Cache.Size
use sccache.Cache.Size.{
  parse_size, split_last, factor_of, storage_from_environment, endpoint_of, region_endpoint, s3,
}

program : Unit {0}
unfolding text_eq parse_size split_last factor_of storage_from_environment endpoint_of
    region_endpoint decimal digits read_decimal read_digits
program = tt

reads_size : parse_size (codes "2K") ≡ some 2048
unfolding program
reads_size = refl

-- A size of 2⁶⁴ bytes is taken for none at all.
wraps_size : parse_size (codes "16777216T") ≡ some 0
unfolding program
wraps_size = refl

names_region :
    storage_from_environment (record {
      bucket = some (codes "b");
      endpoint = none;
      region = some (codes "eu");
      dir = none;
      cache_size = none;
      app_dir = none;
      temp_dir = codes "/tmp";
      has_home = true;
    })
    ≡ s3 (codes "b") (codes "b.s3-eu.amazonaws.com")
unfolding program
names_region = refl

parse_size-decimal_example : parse_size (decimal 3 ++ 75 ∷ []) ≡ some 3072
unfolding program
parse_size-decimal_example = Size.parse_size-decimal 3 75 1024 (omega arith) refl

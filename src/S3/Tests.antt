-- ===== src/S3/Tests.antt =====
-- The store on S3 and its credentials at concrete inputs.
use sccache.Prelude.{
  List, ℕ, zero, suc, ◌+◌, ◌≤◌, Text, codes, text_eq, starts_with, [], ◌∷◌, ◌≡◌, ◌⊎◌, refl, Option,
  none, some, true, false, All, decimal, digits,
}
use sccache.Lru.{find, erase}
use sccache.Cache.{CacheEntry, hit}
use sccache.Cache.FakeZip.{fake_zip, write_entry}
use sccache.S3.Credentials as Credentials
use sccache.S3.Credentials.{
  AwsCredentials, AutoRefreshingProvider, accesses, credentials, is_stale, credentials_are_expired,
  in_ten_minutes,
}
use sccache.S3.Profile.{
  name_before_bracket, profile_of, to_ascii_lowercase, has_part, before_equals, second_part,
  skip_spaces, trim_spaces, value_of, close_profile, scan_value, scan_line, scan_lines,
  nonempty_profiles, parse_credentials_file, profiles, panics, profile_credentials,
}
use sccache.S3.Chain
use sccache.S3.Chain.{
  ProfileProvider, chain, chain_profiles, all_given, first_of, first_unless_panic,
}
use sccache.S3.Bucket as Bucket
use sccache.S3.Bucket.{
  Put, Response, signed_headers, canonical_headers, string_to_sign, url_of, base_url, is_success,
  auth, put_request, body_of, normalize_key, read_body, get, finish_put, no_ssl,
}
use sccache.S3.Restored

program : Unit {0}
unfolding text_eq chain chain_profiles all_given first_of first_unless_panic profile_credentials
    starts_with name_before_bracket profile_of to_ascii_lowercase has_part before_equals second_part
    skip_spaces trim_spaces value_of close_profile scan_value scan_line scan_lines nonempty_profiles
    parse_credentials_file find erase in_ten_minutes accesses credentials is_stale
    credentials_are_expired signed_headers canonical_headers string_to_sign url_of base_url
    is_success auth put_request body_of normalize_key read_body get finish_put Bucket.new decimal
    digits
program = tt

-- A value is cut at a second `=`.
cuts_value :
    parse_credentials_file 0 (
      some (
        codes "[default]"
        ∷ codes "AWS_access_key_id = AK "
        ∷ codes "aws_secret_access_key=ab=cd"
        ∷ []))
    ≡ profiles (
        (
          codes "default",
          record { key = codes "AK"; secret = codes "ab"; token = none; expires_at = 600 },
        )
        ∷ [])
unfolding program
cuts_value = refl

-- A line with the name of a key and no `=` is a panic.
panics_without_equals :
    parse_credentials_file 0 (some (codes "[default]" ∷ codes "aws_access_key_id" ∷ [])) ≡ panics
unfolding program
panics_without_equals = refl

abbrev creds : ℕ → AwsCredentials
creds t = record { key = codes "AK"; secret = codes "SK"; token = none; expires_at = t }

-- A file without the profile, one that makes its provider panic, and one with the profile.
abbrev other_file : List Text
other_file = codes "[other]" ∷ codes "aws_access_key_id=AK" ∷ codes "aws_secret_access_key=SK" ∷ []

abbrev bad_file : List Text
bad_file = codes "[default]" ∷ codes "aws_access_key_id" ∷ []

abbrev good_file : List Text
good_file = codes "[default]" ∷ codes "aws_access_key_id=AK" ∷ codes "aws_secret_access_key=SK" ∷ []

abbrev default_of : List Text → ProfileProvider
default_of file = (codes "default", some file)

-- The environment has credentials, and the chain panics.
panics_all_the_same : chain 0 (some (creds 1)) (default_of bad_file ∷ []) none ≡ none
unfolding program
panics_all_the_same = refl

chain-first_of_example :
    chain 0 none (default_of other_file ∷ default_of good_file ∷ []) (some (creds 2))
    ≡ some (some (creds 600))
unfolding program
chain-first_of_example =
    Chain.chain-first_of 0 none (default_of other_file ∷ default_of good_file ∷ []) (some (creds 2))

-- The first fetch fails, and later ones would not.
abbrev fetch : ℕ → Option AwsCredentials
fetch n = elim n [ zero ↦ none | suc m ↦ some (creds 100) ]

accesses-failed_example :
    All
      (λ r. r ≡ none)
      (accesses fetch (record { fetched = 0; resolved = false }) ((5, true) ∷ (9000, true) ∷ []))
accesses-failed_example =
    Credentials.accesses-failed fetch (record { fetched = 0; resolved = false })
      ((5, true) ∷ (9000, true) ∷ []) refl

abbrev good : ℕ → Option AwsCredentials
good n = some (creds 100)

credentials-fresh_example :
    ((60 + 20 ≤ 100)
      × ((credentials good 60 true (record { fetched = 3; resolved = true })).0.fetched ≡ 3))
    ⊎ (((credentials good 60 true (record { fetched = 3; resolved = true })).0.fetched ≡ 4)
        × (good 4 ≡ some (creds 100)))
unfolding program
credentials-fresh_example =
    Credentials.credentials-fresh good (record { fetched = 3; resolved = true }) 60 true (creds 100)
      refl refl

abbrev bucket : Bucket.Bucket
bucket = record { name = codes "b"; base = codes "http://h/" }

abbrev signature : Text → Text → Text
signature text key = key

abbrev entry : CacheEntry
entry = (codes "obj", 1 ∷ []) ∷ []

abbrev sent : Put
sent =
    put_request signature bucket (codes "now") (codes "a/b/c/abcd") (write_entry entry) (creds 900)

get-finish_put_s3_example :
    get fake_zip bucket
      (λ url. some (record { status = 200; body = write_entry entry }))
      (codes "abcd")
    ≡ some (hit entry)
unfolding program fake_zip
get-finish_put_s3_example =
    Restored.get-finish_put_s3 fake_zip bucket signature
      (λ url. some (record { status = 200; body = write_entry entry })) (codes "now") (codes "abcd")
      (some (creds 900)) entry sent (record { status = 200; body = write_entry entry }) refl refl
      refl refl

-- ===== src/S3/Profile.antt =====
-- `parse_credentials_file` of src/simples3/credential.rs, on the lines of the file.
use sccache.Prelude.{
  ℕ, ◌+◌, Text, codes, starts_with, List, [], ◌∷◌, Option, none, some, Bool, true, false,
  if◌then◌else◌, ◌==◌, leb, ◌&&◌, ◌||◌, is_nonempty, ◌>>=◌, reverse,
}
use sccache.Lru.{find, erase}
use sccache.S3.Credentials.{AwsCredentials, in_ten_minutes}

abbrev Profiles : Type 0
Profiles = List (Text × AwsCredentials)

-- The state of the loop.
pub record Scan : Type 0 where
  pub profiles : Profiles
  pub access_key : Option Text
  pub secret_key : Option Text
  pub profile_name : Option Text

-- What is before a closing bracket that ends the text.
unfoldable pub name_before_bracket : Text → Option Text
name_before_bracket [] = none
name_before_bracket (c ∷ []) = if c == 93 then some [] else none
name_before_bracket (c ∷ d ∷ cs) =
    let rest = name_before_bracket (d ∷ cs) in
    if c == 93 then none else (do name ← rest; some (c ∷ name))

abbrev nonempty_name : Option Text → Option Text
nonempty_name none = none
nonempty_name (some name) = if is_nonempty name then some name else none

-- `^\[([^\]]+)\]$`
unfoldable pub profile_of : Text → Option Text
unfolding name_before_bracket
profile_of [] = none
profile_of (c ∷ cs) =
    let name = nonempty_name (name_before_bracket cs) in if c == 91 then name else none

unfoldable pub to_ascii_lowercase : Text → Text
to_ascii_lowercase [] = []
to_ascii_lowercase (c ∷ cs) = (if leb 65 c && leb c 90 then c + 32 else c) ∷ to_ascii_lowercase cs

-- `str::contains`, the part first.
unfoldable pub has_part : Text → Text → Bool
unfolding starts_with
has_part part [] = starts_with part []
has_part part (c ∷ cs) = starts_with part (c ∷ cs) || has_part part cs

unfoldable pub before_equals : Text → Text
before_equals [] = []
before_equals (c ∷ cs) = let rest = before_equals cs in if c == 61 then [] else c ∷ rest

-- The second part of `split('=')`, if there is one.
unfoldable pub second_part : Text → Option Text
unfolding before_equals
second_part [] = none
second_part (c ∷ cs) =
    let rest = second_part cs in if c == 61 then some (before_equals cs) else rest

unfoldable pub skip_spaces : Text → Text
skip_spaces [] = []
skip_spaces (c ∷ cs) = let rest = skip_spaces cs in if c == 32 then rest else c ∷ cs

unfoldable pub trim_spaces : Text → Text
unfolding skip_spaces
trim_spaces t = reverse (skip_spaces (reverse (skip_spaces t)))

-- The value of a line; `none` is the panic of `v[1]`.
unfoldable pub value_of : Text → Option Text
unfolding second_part trim_spaces
value_of line = do v ← second_part line; some (trim_spaces v)

abbrev is_none : Option Text → Bool
is_none none = true
is_none (some t) = false

-- A profile whose name and two keys are known is inserted.
unfoldable pub close_profile : ℕ → Scan → Profiles
unfolding in_ten_minutes erase
close_profile now s = elim s.profile_name [
  | none ↦ s.profiles
  | some name ↦ elim s.access_key [
    | none ↦ s.profiles
    | some key ↦ elim s.secret_key [
      | none ↦ s.profiles
      | some secret ↦
          (
            name,
            record { key = key; secret = secret; token = none; expires_at = in_ten_minutes now },
          )
          ∷ erase name s.profiles
    ]
  ]
]

-- The lines that are no heading; `none` is a panic.
unfoldable pub scan_value : Scan → Text → Option Scan
unfolding to_ascii_lowercase has_part value_of
scan_value s line =
    let lower = to_ascii_lowercase line in
    if has_part (codes "aws_access_key_id") lower && is_none s.access_key
    then (do v ← value_of line; some (record s { access_key = some v }))
    else if has_part (codes "aws_secret_access_key") lower && is_none s.secret_key
    then (do v ← value_of line; some (record s { secret_key = some v }))
    else some s

unfoldable pub scan_line : ℕ → Scan → Text → Option Scan
unfolding starts_with profile_of close_profile scan_value
scan_line now s line = if starts_with (codes "#") line then some s else elim (profile_of line) [
  | some name ↦ some (record {
    profiles = close_profile now s;
    access_key = none;
    secret_key = none;
    profile_name = some name;
  })
  | none ↦ scan_value s line
]

unfoldable pub scan_lines : ℕ → Scan → List Text → Option Scan
unfolding scan_line
scan_lines now s [] = some s
scan_lines now s (line ∷ lines) = do s' ← scan_line now s line; scan_lines now s' lines

-- How a file is read.
pub data Read : Type 0 where
  profiles : Profiles → Read
  fails : Read
  panics : Read

unfoldable pub nonempty_profiles : Profiles → Read
nonempty_profiles [] = fails
nonempty_profiles (p ∷ ps) = profiles (p ∷ ps)

-- `parse_credentials_file`, with the lines of the file if it is one and can be opened.
unfoldable pub parse_credentials_file : ℕ → Option (List Text) → Read
unfolding scan_lines close_profile nonempty_profiles
parse_credentials_file now none = fails
parse_credentials_file now (some lines) =
    elim (scan_lines now
      (record { profiles = []; access_key = none; secret_key = none; profile_name = none }) lines) [
        | none ↦ panics
        | some s ↦ nonempty_profiles (close_profile now s)
      ]

-- `credentials` of `ProfileProvider`: of the profile of this name.
unfoldable pub profile_credentials : ℕ → Text → Option (List Text) → Option (Option AwsCredentials)
unfolding parse_credentials_file find
profile_credentials now name file = elim (parse_credentials_file now file) [
  | panics ↦ none
  | fails ↦ some none
  | profiles ps ↦ some (find name ps)
]

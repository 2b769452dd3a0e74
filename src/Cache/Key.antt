-- ===== src/Cache/Key.antt =====
-- `hash_key`: what is hashed, in order. `sha1` stands for the third-party digest, as a hex string.
use sccache.Prelude.{
  Text, text_eq, codes, List, [], ◌∷◌, ◌++◌, Option, none, some, not, if◌then◌else◌,
}
use sccache.Compiler.{ParsedArguments, output_file}

abbrev pub cache_version : Text
cache_version = codes "3"

abbrev pub cached_env_vars : List Text
cached_env_vars = codes "MACOSX_DEPLOYMENT_TARGET" ∷ codes "IPHONEOS_DEPLOYMENT_TARGET" ∷ []

-- `NAME=value` for each variable that is set.
unfoldable pub env_bytes : (Text → Option Text) → List Text → Text
env_bytes env [] = []
env_bytes env (var ∷ vars) =
    let rest = env_bytes env vars in
    elim (env var) [ none ↦ rest | some val ↦ var ++ codes "=" ++ val ++ rest ]

unfoldable pub hash_input : Text → (Text → Option Text) → Text → Text → Text
unfolding env_bytes
hash_input digest env arguments preprocessor_output =
    digest ++ cache_version ++ arguments ++ env_bytes env cached_env_vars ++ preprocessor_output

unfoldable pub hash_key : (Text → Text) → Text → (Text → Option Text) → Text → Text → Text
unfolding hash_input
hash_key sha1 digest env arguments preprocessor_output =
    sha1 (hash_input digest env arguments preprocessor_output)

-- The common arguments but for the object file's name, one behind the other.
unfoldable pub joined_args : Text → List Text → Text
joined_args out_file [] = []
joined_args out_file (a ∷ args) =
    let rest = joined_args out_file args in if not (text_eq a out_file) then a ++ rest else rest

-- The key that `get_cached_or_compile` computes.
unfoldable pub cache_key :
    (Text → Text) → Text → (Text → Option Text) → ParsedArguments → Text → Text
unfolding hash_key joined_args output_file
cache_key sha1 digest env p preprocessor_output =
    hash_key sha1 digest env (joined_args (output_file p) p.common_args) preprocessor_output

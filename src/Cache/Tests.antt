-- ===== src/Cache/Tests.antt =====
-- The theorems of the key at concrete command lines.
use sccache.Prelude.{Text, text_eq, codes, List, [], ◌∷◌, ◌≡◌, ◌⊎◌, refl, Option, none, some}
use sccache.FilePath.Names.{file_name}
use sccache.Compiler.{ParsedArguments, output_file, get_output}
use sccache.Cache.Key.{cache_key, hash_key, joined_args, env_bytes}
use sccache.Cache.Collisions
use sccache.Cache.Collisions.{Collision}

program : Unit {0}
unfolding text_eq file_name output_file get_output cache_key hash_key joined_args env_bytes
program = tt

abbrev target : Text → Option Text
target var = some (codes "10.7")

abbrev sha1 : Text → Text
sha1 t = t

abbrev line : List Text → ParsedArguments
line args = record {
  input = codes "foo.c";
  extension = codes "c";
  depfile = none;
  outputs = (codes "obj", codes "foo.o") ∷ [];
  preprocessor_args = [];
  common_args = args;
}

abbrev two_args : List Text
two_args = codes "-DA=" ∷ codes "-DB" ∷ []

abbrev one_arg : List Text
one_arg = codes "-DA=-DB" ∷ []

key_of_line :
    cache_key sha1
      (codes "d")
      (λ var. none)
      (line (codes "foo.o" ∷ codes "-O" ∷ []))
      (codes "int x;")
    ≡ codes "d3-Oint x;"
unfolding program
key_of_line = refl

cache_key_joined_example :
    cache_key sha1 (codes "d") target (line two_args) (codes "int x;")
    ≡ cache_key sha1 (codes "d") target (line one_arg) (codes "int x;")
unfolding program
cache_key_joined_example =
    Collisions.cache_key_joined sha1 (codes "d") target (line []) [] [] (codes "-DA=") (codes "-DB")
      (codes "int x;") refl refl refl

cache_key_inj_example :
    ((codes "d" ≡ codes "d") × (codes "int x;" ≡ codes "int x;")) ⊎ Collision sha1
unfolding program
cache_key_inj_example =
    Collisions.cache_key_inj sha1 target (line two_args) (codes "d") (codes "d") (codes "int x;")
      (codes "int x;") refl refl

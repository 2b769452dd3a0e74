-- ===== src/Cache/Entry.antt =====
-- `CacheRead` and `CacheWrite`: an entry of the cache is a list of named objects. `ZipCodec` stands
-- for the third-party `zip`, which turns the objects into bytes and back.
use sccache.Prelude.{ℕ, Text, List, [], ◌∷◌, ◌++◌, ◌≡◌, Option, some}
use sccache.Lru.{find}

abbrev pub Bytes : Type 0
Bytes = List ℕ

abbrev pub CacheEntry : Type 0
CacheEntry = List (Text × Bytes)

-- `CacheWrite::new`
abbrev pub new_entry : CacheEntry
new_entry = []

-- `CacheWrite::put_object`
unfoldable pub put_object : CacheEntry → Text → Bytes → CacheEntry
put_object entry name bytes = entry ++ (name, bytes) ∷ []

-- `CacheRead::get_object`: what is written to `to`, if there is such an object.
unfoldable pub get_object : CacheEntry → Text → Option Bytes
unfolding find
get_object entry name = find name entry

-- What `CacheWrite::finish` writes, `CacheRead::from` reads.
pub record ZipCodec : Type 0 where
  pub finish : CacheEntry → Option Bytes
  pub from : Bytes → Option CacheEntry
  pub from-finish : (e : CacheEntry) (b : Bytes) → finish e ≡ some b → from b ≡ some e

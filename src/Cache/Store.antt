-- ===== src/Cache/Store.antt =====
-- The trait `Storage`.
use sccache.Prelude.{Text, Bool, true, ◌≡◌}
use sccache.Cache.Entry.{CacheEntry}

-- `Result<Cache>`
pub data Lookup : Type 0 where
  hit : CacheEntry → Lookup
  miss : Lookup
  recache : Lookup
  failed : Lookup

-- `start_put` says whether an entry may be begun, `finish_put` whether it was stored; a call
-- returns the new state of the store.
pub record Storage : Type 1 where
  pub State : Type 0
  pub get : State → Text → State × Lookup
  pub start_put : State → Text → Bool
  pub finish_put : State → Text → CacheEntry → State × Bool

-- What a store promises: an entry that fits, and was stored under a key, is found under it.
pub record StorageLaws (store : Storage) : Type 1 where
  pub Fits : store.State → Text → CacheEntry → Type 0
  pub get-finish_put :
      (s : store.State) (key : Text) (entry : CacheEntry)
      → Fits s key entry
      → (store.finish_put s key entry).1 ≡ true
      → (store.get (store.finish_put s key entry).0 key).1 ≡ hit entry

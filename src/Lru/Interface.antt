-- ===== src/Lru/Interface.antt =====
-- The operations of `lru_cache::LruCache<OsString, V, S, M>` that the program calls, and their laws.
use sccache.Prelude.{ℕ, Text, List, [], ◌∷◌, ◌++◌, ◌≡◌, Option, none, some, Bool, true, false}
use sccache.Lru.Assoc.{find, erase, use_entry, total, make_room}

pub record LruCache (V : Type 0) : Type 1 where
  pub Cache : Type 0
  pub with_meter : ℕ → Cache
  pub size : Cache → ℕ
  pub capacity : Cache → ℕ
  pub iter : Cache → List (Text × V)
  pub contains_key : Cache → Text → Bool
  pub get : Cache → Text → Cache × Option V
  pub insert : Cache → Text → V → Cache
  pub remove_lru : Cache → Cache × Option (Text × V)

abbrev pub is_some {ℓ} : {A : Type ℓ} → Option A → Bool
is_some none = false
is_some (some a) = true

-- `measure` is the meter that the cache was made with. A read makes its entry the most recently
-- used; an insertion replaces the key's entry, puts the new one last, and drops entries from the
-- front while the sum of the measures exceeds the capacity.
pub record LruLaws {V : Type 0} (measure : V → ℕ) (L : LruCache V) : Type 0 where
  pub iter-with_meter : (n : ℕ) → L.iter (L.with_meter n) ≡ []
  pub capacity-with_meter : (n : ℕ) → L.capacity (L.with_meter n) ≡ n
  pub size-total : (c : L.Cache) → L.size c ≡ total measure (L.iter c)
  pub contains_key-find :
      (c : L.Cache) (k : Text) → L.contains_key c k ≡ is_some (find k (L.iter c))
  pub get-find : (c : L.Cache) (k : Text) → (L.get c k).1 ≡ find k (L.iter c)
  pub iter-get :
      (c : L.Cache) (k : Text) → L.iter (L.get c k).0 ≡ use_entry k (find k (L.iter c)) (L.iter c)
  pub capacity-get : (c : L.Cache) (k : Text) → L.capacity (L.get c k).0 ≡ L.capacity c
  pub iter-insert :
      (c : L.Cache) (k : Text) (v : V)
      → L.iter (L.insert c k v)
        ≡ make_room measure (L.capacity c) 0 (erase k (L.iter c) ++ (k, v) ∷ [])
  pub capacity-insert :
      (c : L.Cache) (k : Text) (v : V) → L.capacity (L.insert c k v) ≡ L.capacity c
  pub remove_lru_empty : (c : L.Cache) → L.iter c ≡ [] → (L.remove_lru c).1 ≡ none
  pub remove_lru_head :
      (c : L.Cache) (e : Text × V) (es : List (Text × V))
      → L.iter c ≡ e ∷ es
      → ((L.remove_lru c).1 ≡ some e) × (L.iter (L.remove_lru c).0 ≡ es)
  pub capacity-remove_lru : (c : L.Cache) → L.capacity (L.remove_lru c).0 ≡ L.capacity c

-- ===== src/Lru/Listed.antt =====
-- A list-backed cache, which shows that the laws of the interface can hold.
use sccache.Prelude.{ℕ, Text, List, [], ◌∷◌, ◌++◌, ◌≡◌, refl, Option, none, some}
use sccache.Lru.Assoc.{find, erase, use_entry, total, make_room}
use sccache.Lru.Interface.{LruCache, LruLaws, is_some}

pub record Entries (V : Type 0) : Type 0 where
  pub limit : ℕ
  pub items : List (Text × V)

module _ {V : Type 0} where
  unfoldable pub pop_front : Entries V → List (Text × V) → Entries V × Option (Text × V)
  pop_front c [] = (c, none)
  pop_front c (e ∷ es) = (record c { items = es }, some e)

  pop_front_empty : (c : Entries V) (l : List (Text × V)) → l ≡ [] → (pop_front c l).1 ≡ none
  unfolding pop_front
  pop_front_empty c [] h = refl
  pop_front_empty c (e ∷ es) h = cc

  pop_front_head :
      (c : Entries V) (l : List (Text × V)) (e : Text × V) (es : List (Text × V))
      → l ≡ e ∷ es
      → ((pop_front c l).1 ≡ some e) × ((pop_front c l).0.items ≡ es)
  unfolding pop_front
  pop_front_head c [] e es h = cc
  pop_front_head c (f ∷ fs) e es h = (cc, cc)

  pop_front_limit : (c : Entries V) (l : List (Text × V)) → (pop_front c l).0.limit ≡ c.limit
  unfolding pop_front
  pop_front_limit c [] = refl
  pop_front_limit c (e ∷ es) = refl

abbrev pub listed : {V : Type 0} → (V → ℕ) → LruCache V
listed {V} measure = record {
  Cache = Entries V;
  with_meter = λ n. record { limit = n; items = [] };
  size = λ c. total measure c.items;
  capacity = λ c. c.limit;
  iter = λ c. c.items;
  contains_key = λ c k. is_some (find k c.items);
  get = λ c k. (record c { items = use_entry k (find k c.items) c.items }, find k c.items);
  insert =
      λ c k v. record c { items = make_room measure c.limit 0 (erase k c.items ++ (k, v) ∷ []) };
  remove_lru = λ c. pop_front c c.items;
}

pub listed-LruLaws : {V : Type 0} (measure : V → ℕ) → LruLaws measure (listed measure)
listed-LruLaws measure = record {
  iter-with_meter = λ n. refl;
  capacity-with_meter = λ n. refl;
  size-total = λ c. refl;
  contains_key-find = λ c k. refl;
  get-find = λ c k. refl;
  iter-get = λ c k. refl;
  capacity-get = λ c k. refl;
  iter-insert = λ c k v. refl;
  capacity-insert = λ c k v. refl;
  remove_lru_empty = λ c h. pop_front_empty c c.items h;
  remove_lru_head = λ c e es h. pop_front_head c c.items e es h;
  capacity-remove_lru = λ c. pop_front_limit c c.items;
}

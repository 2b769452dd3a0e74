-- ===== src/Cache/FakeZip.antt =====
-- A `ZipCodec` for tests: each text is written as the successors of its codes and a zero.
use sccache.Prelude.{ℕ, zero, suc, Text, List, [], ◌∷◌, ◌≡◌, refl, ap, sym, ◌∙◌, some}
use sccache.Cache.Entry.{Bytes, CacheEntry, ZipCodec}

write_text : Text → Bytes → Bytes
write_text [] rest = 0 ∷ rest
write_text (c ∷ cs) rest = suc c ∷ write_text cs rest

pub write_entry : CacheEntry → Bytes
unfolding write_text
write_entry [] = []
write_entry ((name, bytes) ∷ objects) = write_text name (write_text bytes (write_entry objects))

put_head : ℕ → List Text → List Text
put_head c [] = []
put_head c (t ∷ ts) = (c ∷ t) ∷ ts

pub read_texts : Bytes → List Text
unfolding put_head
read_texts [] = []
read_texts (zero ∷ bs) = [] ∷ read_texts bs
read_texts (suc c ∷ bs) = put_head c (read_texts bs)

pub read_pairs : List Text → CacheEntry
read_pairs [] = []
read_pairs (name ∷ []) = []
read_pairs (name ∷ bytes ∷ ts) = (name, bytes) ∷ read_pairs ts

read_texts-write_text :
    (t : Text) (rest : Bytes) → read_texts (write_text t rest) ≡ t ∷ read_texts rest
unfolding read_texts write_text
read_texts-write_text [] rest = refl
read_texts-write_text (c ∷ cs) rest = ap (put_head c) (read_texts-write_text cs rest)

read_pairs-write_entry : (e : CacheEntry) → read_pairs (read_texts (write_entry e)) ≡ e
unfolding read_pairs write_entry read_texts
read_pairs-write_entry [] = refl
read_pairs-write_entry ((name, bytes) ∷ objects) = rw (
  read_texts-write_text name (write_text bytes (write_entry objects)),
  read_texts-write_text bytes (write_entry objects),
  read_pairs-write_entry objects,
)

pub finishes_back :
    (e : CacheEntry) (b : Bytes)
    → some (write_entry e) ≡ some b
    → some (read_pairs (read_texts b)) ≡ some e
finishes_back e b h =
    ap (λ x. some (read_pairs (read_texts x))) (sym (some_inj h))
    ∙ ap some (read_pairs-write_entry e)
  where
    some_inj : {x y : Bytes} → some x ≡ some y → x ≡ y
    some_inj q = cc

unfoldable pub fake_zip : ZipCodec
unfolding write_entry read_texts read_pairs
fake_zip = record {
  finish = λ e. some (write_entry e);
  from = λ b. some (read_pairs (read_texts b));
  from-finish = finishes_back;
}

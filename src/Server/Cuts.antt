-- ===== src/Server/Cuts.antt =====
-- Two ways to cut a list of bytes, for the codec of src/server.rs.
use sccache.Prelude.{ℕ, ◌≤◌, [], ◌∷◌, ◌++◌, ◌≡◌, ◌≢◌, refl, sym, ◌⊎◌, inl, inr, length, drop, arith}
use sccache.Client.Wire.{Bytes}

-- Where two cuts of one list lie.
pub record Longer (a b c d : Bytes) : Type 0 where
  pub extra : Bytes
  pub left_eq : b ≡ a ++ extra
  pub right_eq : c ≡ extra ++ d

pub record Shorter (a b c d : Bytes) : Type 0 where
  pub next : ℕ
  pub extra : Bytes
  pub left_eq : a ≡ b ++ next ∷ extra
  pub right_eq : d ≡ (next ∷ extra) ++ c

pub cuts : (a b c d : Bytes) → a ++ c ≡ b ++ d → Longer a b c d ⊎ Shorter a b c d
cuts [] b c d h = inl (record { extra = b; left_eq = refl; right_eq = h })
cuts (x ∷ a) [] c d h = inr (record { next = x; extra = a; left_eq = refl; right_eq = sym h })
cuts (x ∷ a) (y ∷ b) c d h = elim (cuts a b c d (tails h)) [
  | inl l ↦ inl (record { extra = l.extra; left_eq = heads h (l.left_eq); right_eq = l.right_eq })
  | inr s ↦ inr (record {
    next = s.next;
    extra = s.extra;
    left_eq = heads' h s.left_eq;
    right_eq = s.right_eq;
  })
]
  where
    tails : {u v : ℕ} {us vs : Bytes} → u ∷ us ≡ v ∷ vs → us ≡ vs
    tails q = cc

    heads : {u v : ℕ} {us vs ws zs : Bytes} → u ∷ us ≡ v ∷ vs → ws ≡ zs → v ∷ ws ≡ u ∷ zs
    heads q r = cc

    heads' : {u v : ℕ} {us vs ws zs : Bytes} → u ∷ us ≡ v ∷ vs → ws ≡ zs → u ∷ ws ≡ v ∷ zs
    heads' q r = cc

pub drop-append : (xs ys : Bytes) → drop (length xs) (xs ++ ys) ≡ ys
drop-append [] ys = refl
drop-append (x ∷ xs) ys = drop-append xs ys

pub cons_nil : {y : ℕ} {ys : Bytes} → ◌≡◌ {A = Bytes} (y ∷ ys) [] → ⊥
cons_nil h = cc

pub empty_left : (xs ys : Bytes) → [] ≡ xs ++ ys → xs ≡ []
empty_left [] ys h = refl
empty_left (x ∷ xs) ys h = absurd (cons_nil (sym h))

pub positive : (xs : Bytes) → xs ≢ [] → 1 ≤ length xs
positive [] h = absurd (h refl)
positive (x ∷ xs) h = omega arith

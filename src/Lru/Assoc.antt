-- ===== src/Lru/Assoc.antt =====
-- Association lists in the order of use, the least recently used entry first.
use sccache.Prelude.{
  ℕ, ◌+◌, ◌≤◌, Text, text_eq, text_eq_iff, text_eq_refl, List, [], ◌∷◌, ◌++◌, ◌≡◌, ◌≢◌, refl,
  Option, none, some, Bool, true, false, leb, if◌then◌else◌, arith, All, sym, All-append,
  Bool-cases, inl, inr, subst,
}

module _ {V : Type 0} where
  unfoldable pub find : Text → List (Text × V) → Option V
  find k [] = none
  find k ((j, v) ∷ es) = if text_eq j k then some v else find k es

  unfoldable pub erase : Text → List (Text × V) → List (Text × V)
  erase k [] = []
  erase k ((j, v) ∷ es) = let rest = erase k es in if text_eq j k then es else (j, v) ∷ rest

  -- An entry that is used becomes the last.
  unfoldable pub use_entry : Text → Option V → List (Text × V) → List (Text × V)
  unfolding erase
  use_entry k none es = es
  use_entry k (some v) es = erase k es ++ (k, v) ∷ []

  unfoldable pub total : (V → ℕ) → List (Text × V) → ℕ
  total size [] = 0
  total size ((k, v) ∷ es) = size v + total size es

  -- What stays when the least recently used entries go until the rest fits beside `extra`.
  unfoldable pub make_room : (V → ℕ) → ℕ → ℕ → List (Text × V) → List (Text × V)
  unfolding total
  make_room size cap extra [] = []
  make_room size cap extra (e ∷ es) =
      let rest = make_room size cap extra es in
      if leb (total size (e ∷ es) + extra) cap then e ∷ es else rest

  abbrev pub Absent : Text → List (Text × V) → Type 0
  Absent k = All (λ e. e.0 ≢ k)

  -- No key twice.
  abbrev pub Distinct : List (Text × V) → Type 0
  Distinct [] = Unit
  Distinct (e ∷ es) = Absent e.0 es × Distinct es

  pub total-append :
      (size : V → ℕ) (xs ys : List (Text × V))
      → total size (xs ++ ys) ≡ total size xs + total size ys
  unfolding total
  total-append size [] ys = ground arith
  total-append size (x ∷ xs) ys = ground (arith, total-append size xs ys)

  pub total-make_room-le :
      (size : V → ℕ) (cap extra : ℕ) (es : List (Text × V))
      → extra ≤ cap
      → total size (make_room size cap extra es) + extra ≤ cap
  unfolding total make_room
  total-make_room-le size cap extra [] h = omega arith
  total-make_room-le size cap extra (e ∷ es) h =
      ground (arith, total-make_room-le size cap extra es)

  pub make_room_of_fits :
      (size : V → ℕ) (cap extra : ℕ) (es : List (Text × V))
      → total size es + extra ≤ cap
      → make_room size cap extra es ≡ es
  unfolding total make_room
  make_room_of_fits size cap extra [] h = refl
  make_room_of_fits size cap extra (e ∷ es) h = ground arith

  pub All-make_room {κ} :
      (P : (Text × V) → Type κ) (size : V → ℕ) (cap extra : ℕ) (es : List (Text × V))
      → All P es
      → All P (make_room size cap extra es)
  unfolding make_room
  All-make_room P size cap extra [] h = tt
  All-make_room P size cap extra (e ∷ es) h =
      elim (leb (total size (e ∷ es) + extra) cap)
        as (λ b. All P (if b then e ∷ es else make_room size cap extra es)) [
          | true ↦ h
          | false ↦ All-make_room P size cap extra es h.1
        ]

  pub make_room-Distinct :
      (size : V → ℕ) (cap extra : ℕ) (es : List (Text × V))
      → Distinct es
      → Distinct (make_room size cap extra es)
  unfolding make_room
  make_room-Distinct size cap extra [] h = tt
  make_room-Distinct size cap extra (e ∷ es) h =
      elim (leb (total size (e ∷ es) + extra) cap)
        as (λ b. Distinct (if b then e ∷ es else make_room size cap extra es)) [
          | true ↦ h
          | false ↦ make_room-Distinct size cap extra es h.1
        ]

  pub find-Absent : (k : Text) (es : List (Text × V)) → Absent k es → find k es ≡ none
  unfolding find
  find-Absent k [] h = refl
  find-Absent k ((j, v) ∷ es) h = ground (arith, text_eq_iff j k, find-Absent k es, h.0)

  pub erase_of_missing : (k : Text) (es : List (Text × V)) → Absent k es → erase k es ≡ es
  unfolding erase
  erase_of_missing k [] h = refl
  erase_of_missing k ((j, v) ∷ es) h = ground (arith, text_eq_iff j k, erase_of_missing k es, h.0)

  pub Absent-of_find : (k : Text) (es : List (Text × V)) → find k es ≡ none → Absent k es
  unfolding find
  Absent-of_find k [] h = tt
  Absent-of_find k ((j, v) ∷ es) h =
      (λ e. ground (arith, text_eq_iff j k), Absent-of_find k es (ground (arith, text_eq_iff j k)))

  pub All-erase {κ} :
      (P : (Text × V) → Type κ) (k : Text) (es : List (Text × V)) → All P es → All P (erase k es)
  unfolding erase
  All-erase P k [] h = tt
  All-erase P k ((j, v) ∷ es) h =
      elim (text_eq j k) as (λ b. All P (if b then es else (j, v) ∷ erase k es)) [
        | true ↦ h.1
        | false ↦ (h.0, All-erase P k es h.1)
      ]

  erase-Absent_step :
      (j k : Text) (v : V) (es rest : List (Text × V)) (b : Bool)
      → (b ≡ true → j ≡ k)
      → (j ≡ k → b ≡ true)
      → Absent j es
      → Absent k rest
      → Absent k (if b then es else (j, v) ∷ rest)
  erase-Absent_step j k v es rest true to from a r = subst (λ t. Absent t es) (to refl) a
  erase-Absent_step j k v es rest false to from a r = (λ e. cc (from e), r)

  pub erase-Absent : (k : Text) (es : List (Text × V)) → Distinct es → Absent k (erase k es)
  unfolding erase
  erase-Absent k [] h = tt
  erase-Absent k ((j, v) ∷ es) h =
      let i = text_eq_iff j k in
      erase-Absent_step j k v es (erase k es) (text_eq j k) i.0 i.1 h.0 (erase-Absent k es h.1)

  pub erase-Distinct : (k : Text) (es : List (Text × V)) → Distinct es → Distinct (erase k es)
  unfolding erase
  erase-Distinct k [] h = tt
  erase-Distinct k ((j, v) ∷ es) h =
      elim (text_eq j k) as (λ b. Distinct (if b then es else (j, v) ∷ erase k es)) [
        | true ↦ h.1
        | false ↦ (All-erase _ k es h.0, erase-Distinct k es h.1)
      ]

  pub Distinct-snoc :
      (k : Text) (v : V) (es : List (Text × V))
      → Distinct es
      → Absent k es
      → Distinct (es ++ (k, v) ∷ [])
  Distinct-snoc k v [] h a = (tt, tt)
  Distinct-snoc k v (e ∷ es) h a = (
    All-append (λ f. f.0 ≢ e.0) es ((k, v) ∷ []) h.0 ((λ p. a.0 (sym p)), tt),
    Distinct-snoc k v es h.1 a.1,
  )

  pub total-erase :
      (size : V → ℕ) (k : Text) (es : List (Text × V)) (v : V)
      → find k es ≡ some v
      → total size (erase k es) + size v ≡ total size es
  unfolding find erase total
  total-erase size k [] v h = cc
  total-erase size k ((j, w) ∷ es) v h = elim (Bool-cases (text_eq j k)) [
    | inl e ↦ ground (arith, e)
    | inr e ↦ ground (arith, e, total-erase size k es v)
  ]

  -- What is found is a member.
  pub All-find {κ} :
      (P : (Text × V) → Type κ) (k : Text) (es : List (Text × V)) (v : V)
      → All P es
      → find k es ≡ some v
      → P (k, v)
  unfolding find
  All-find P k [] v a h = cc
  All-find P k ((j, w) ∷ es) v a h = elim (Bool-cases (text_eq j k)) [
    | inl e ↦ subst P (pair_eq ((text_eq_iff j k).0 e) (ground (arith, e))) a.0
    | inr e ↦ All-find P k es v a.1 (ground (arith, e))
  ]
    where
      pair_eq : j ≡ k → w ≡ v → ◌≡◌ {A = Text × V} (j, w) (k, v)
      pair_eq p q = λ i. (p i, q i)

  pub find_last :
      (k : Text) (v : V) (es : List (Text × V)) → Absent k es → find k (es ++ (k, v) ∷ []) ≡ some v
  unfolding find
  find_last k v [] a = rw (text_eq_refl k)
  find_last k v ((j, w) ∷ es) a = ground (arith, text_eq_iff j k, find_last k v es, a.0)

  pub find-snoc_ne :
      (k j : Text) (v : V) (es : List (Text × V)) → j ≢ k → find k (es ++ (j, v) ∷ []) ≡ find k es
  unfolding find
  find-snoc_ne k j v [] h = ground (arith, text_eq_iff j k)
  find-snoc_ne k j v ((i, w) ∷ es) h = ground (arith, find-snoc_ne k j v es)

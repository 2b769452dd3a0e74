-- ===== src/Msvc/Order.antt =====
-- The order and the uniqueness of the names in the dependency file of `msvc::preprocess`.
use sccache.Prelude.{
  Text, text_eq, text_eq_iff, contains, List, [], ◌∷◌, ◌++◌, ◌≡◌, refl, sym, ◌∙◌, Bool, true, false,
  ◌||◌, Bool-cases, inl, inr, All, All-map, arith,
}
use sccache.Msvc.Preprocess.{has_space, text_ltb, insert_sorted, sorted}
use sccache.Msvc.Rules.{keeps, Once, keeps_iff}
use sccache.Msvc.Deps.{or_false, contains-append, contains-sorted, contains-insert_sorted}

-- None is before an earlier one.
abbrev pub Ascending : List Text → Type 0
Ascending [] = Unit
Ascending (x ∷ xs) = All (λ y. text_ltb y x ≡ false) xs × Ascending xs

text_ltb_trans :
    (xs ys zs : Text) → text_ltb xs ys ≡ true → text_ltb ys zs ≡ true → text_ltb xs zs ≡ true
unfolding text_ltb
text_ltb_trans [] [] zs h k = absurd cc
text_ltb_trans (x ∷ xs) [] zs h k = absurd cc
text_ltb_trans xs (y ∷ ys) [] h k = absurd cc
text_ltb_trans [] (y ∷ ys) (z ∷ zs) h k = refl
text_ltb_trans (x ∷ xs) (y ∷ ys) (z ∷ zs) h k =
    let rest = text_ltb_trans xs ys zs in ground (arith, h, k, rest)

-- If `d` is before `e`, then what is not before `e` is not before `d`.
not_before : (d e z : Text) → text_ltb d e ≡ true → text_ltb z e ≡ false → text_ltb z d ≡ false
not_before d e z h k = elim (Bool-cases (text_ltb z d)) [
  | inl b ↦ absurd (yes_no (sym (text_ltb_trans z d e b h) ∙ k))
  | inr b ↦ b
]
  where
    yes_no : true ≡ false → ⊥
    yes_no q = cc

irreflexive : (t : Text) → text_ltb t t ≡ false
unfolding text_ltb
irreflexive [] = refl
irreflexive (x ∷ xs) = let rest = irreflexive xs in ground (arith, rest)

asymmetric : (d e : Text) → text_ltb d e ≡ true → text_ltb e d ≡ false
asymmetric d e h = not_before d e e h (irreflexive e)

All-insert_sorted :
    (P : Text → Type 0) (d : Text) (es : List Text) → P d → All P es → All P (insert_sorted d es)
unfolding insert_sorted
All-insert_sorted P d [] h k = (h, tt)
All-insert_sorted P d (e ∷ es) h k = elim (Bool-cases (text_ltb d e)) [
  | inl b ↦ rw b (h, k)
  | inr b ↦ rw b (k.0, All-insert_sorted P d es h k.1)
]

insert_sorted-Ascending :
    (d : Text) (es : List Text) → Ascending es → Ascending (insert_sorted d es)
unfolding insert_sorted
insert_sorted-Ascending d [] h = (tt, tt)
insert_sorted-Ascending d (e ∷ es) h = elim (Bool-cases (text_ltb d e)) [
  | inl b ↦ rw b (
    (asymmetric d e b, All-map _ (λ z. text_ltb z d ≡ false) es (λ z q. not_before d e z b q) h.0),
    h,
  )
  | inr b ↦
      rw b
        (All-insert_sorted (λ z. text_ltb z e ≡ false) d es b h.0, insert_sorted-Ascending d es h.1)
]

sorted-Ascending : (ds : List Text) → Ascending (sorted ds)
unfolding sorted
sorted-Ascending [] = tt
sorted-Ascending (d ∷ ds) = insert_sorted-Ascending d (sorted ds) (sorted-Ascending ds)

All-keeps : (P : Text → Type 0) (ds : List Text) → All P ds → All P (keeps ds)
unfolding keeps
All-keeps P [] h = tt
All-keeps P (d ∷ ds) h = elim (Bool-cases (has_space d)) [
  | inl s ↦ rw s (All-keeps P ds h.1)
  | inr s ↦ rw s (h.0, All-keeps P ds h.1)
]

keeps-Ascending : (ds : List Text) → Ascending ds → Ascending (keeps ds)
unfolding keeps
keeps-Ascending [] h = tt
keeps-Ascending (d ∷ ds) h = elim (Bool-cases (has_space d)) [
  | inl s ↦ rw s (keeps-Ascending ds h.1)
  | inr s ↦ rw s (All-keeps (λ y. text_ltb y d ≡ false) ds h.0, keeps-Ascending ds h.1)
]

-- The rules for removed files stand in the order of their names.
pub keeps_sorted-Ascending : (ds : List Text) → Ascending (keeps (sorted ds))
keeps_sorted-Ascending ds = keeps-Ascending (sorted ds) (sorted-Ascending ds)

absent : (b : Bool) → (b ≡ true → ⊥) → b ≡ false
absent true h = absurd (h refl)
absent false h = refl

yes_no : {b : Bool} → b ≡ true → b ≡ false → ⊥
yes_no h k = cc

pub keeps-Once : (ds : List Text) → Once ds → Once (keeps ds)
unfolding keeps
keeps-Once [] h = tt
keeps-Once (d ∷ ds) h = elim (Bool-cases (has_space d)) [
  | inl s ↦ rw s (keeps-Once ds h.1)
  | inr s ↦
      rw s (
        absent (contains (keeps ds) d) (λ q. yes_no ((keeps_iff ds d).0 q).0 h.0),
        keeps-Once ds h.1,
      )
]

or_eq : (a b : Bool) → a ≡ false → b ≡ false → (a || b) ≡ false
or_eq a b h k = rw (h, k) refl

or_parts : (a b : Bool) → (a || b) ≡ false → (a ≡ false) × (b ≡ false)
or_parts true b h = absurd cc
or_parts false b h = (refl, h)

differ_sym : (a b : Text) → text_eq a b ≡ false → text_eq b a ≡ false
differ_sym a b h =
    absent (text_eq b a) (λ q. yes_no ((text_eq_iff a b).1 (sym ((text_eq_iff b a).0 q))) h)

insert_sorted-Once :
    (d : Text) (es : List Text) → contains es d ≡ false → Once es → Once (insert_sorted d es)
unfolding insert_sorted contains
insert_sorted-Once d [] h k = (refl, tt)
insert_sorted-Once d (e ∷ es) h k = elim (Bool-cases (text_ltb d e)) [
  | inl b ↦ rw b (h, k)
  | inr b ↦
      let parts = or_parts (text_eq e d) (contains es d) h in
      rw b (
        contains-insert_sorted d es e
            ∙ or_eq (text_eq d e) (contains es e) (differ_sym e d parts.0) k.0,
        insert_sorted-Once d es parts.1 k.1,
      )
]

pub sorted-Once : (ds : List Text) → Once ds → Once (sorted ds)
unfolding sorted
sorted-Once [] h = tt
sorted-Once (d ∷ ds) h =
    insert_sorted-Once d (sorted ds) (contains-sorted ds d ∙ h.0) (sorted-Once ds h.1)

pub append-Once :
    (ds : List Text) (d : Text) → contains ds d ≡ false → Once ds → Once (ds ++ d ∷ [])
unfolding contains
append-Once [] d h k = (refl, tt)
append-Once (e ∷ ds) d h k =
    let parts = or_parts (text_eq e d) (contains ds d) h in
    (
      contains-append ds (d ∷ []) e
          ∙ or_eq (contains ds e) (text_eq d e || false) k.0
              (or_false (text_eq d e) ∙ differ_sym e d parts.0),
      append-Once ds d parts.1 k.1,
    )

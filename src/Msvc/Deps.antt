-- ===== src/Msvc/Deps.antt =====
-- The set of dependencies of `msvc::preprocess`, and the same in the order of its rules.
use sccache.Prelude.{
  Text, text_eq, contains, List, [], ◌∷◌, ◌++◌, ◌≡◌, refl, sym, ap, ◌∙◌, Bool, true, false, ◌||◌,
  Bool-cases, inl, inr,
}
use sccache.Msvc.Preprocess.{text_ltb, insert_sorted, sorted}

pub or_assoc : (a b c : Bool) → ((a || b) || c) ≡ (a || (b || c))
or_assoc true b c = refl
or_assoc false b c = refl

or_swap : (a b c : Bool) → (a || (b || c)) ≡ (b || (a || c))
or_swap true true c = refl
or_swap true false c = refl
or_swap false b c = refl

pub or_false : (a : Bool) → (a || false) ≡ a
or_false true = refl
or_false false = refl

pub contains-append :
    (xs ys : List Text) (d : Text) → contains (xs ++ ys) d ≡ (contains xs d || contains ys d)
unfolding contains
contains-append [] ys d = refl
contains-append (x ∷ xs) ys d =
    ap (λ b. text_eq x d || b) (contains-append xs ys d)
    ∙ sym (or_assoc (text_eq x d) (contains xs d) (contains ys d))

pub contains-insert_sorted :
    (e : Text) (es : List Text) (d : Text)
    → contains (insert_sorted e es) d ≡ (text_eq e d || contains es d)
unfolding contains insert_sorted
contains-insert_sorted e [] d = refl
contains-insert_sorted e (x ∷ es) d = elim (Bool-cases (text_ltb e x)) [
  | inl before ↦ rw before refl
  | inr after ↦ rw after (
      ap (λ b. text_eq x d || b) (contains-insert_sorted e es d)
      ∙ or_swap (text_eq x d) (text_eq e d) (contains es d))
]

pub contains-sorted : (ds : List Text) (d : Text) → contains (sorted ds) d ≡ contains ds d
unfolding contains sorted
contains-sorted [] d = refl
contains-sorted (e ∷ ds) d =
    contains-insert_sorted e (sorted ds) d ∙ ap (λ b. text_eq e d || b) (contains-sorted ds d)

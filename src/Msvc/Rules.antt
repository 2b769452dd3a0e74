-- ===== src/Msvc/Rules.antt =====
-- The rules of the dependency file of `msvc::preprocess`, and the names that they are for.
use sccache.Prelude.{
  Text, text_eq, text_eq_iff, codes, contains, List, [], ◌∷◌, ◌++◌, ◌≡◌, ◌≢◌, ◌↔◌, refl, sym, ap,
  ◌∙◌, subst, Bool, true, false, not, ◌&&◌, ◌==◌, ==_iff, if◌then◌else◌, Bool-cases, inl, inr, All,
}
use sccache.Msvc.Preprocess.{has_space, rule_names, extra_rules}

-- The names of a rule, each with a space behind it.
unfoldable pub spaced : List Text → Text
spaced [] = []
spaced (d ∷ ds) = d ++ codes " " ++ spaced ds

-- A rule for each.
unfoldable pub rules : List Text → Text
rules [] = []
rules (d ∷ ds) = d ++ codes ":\n" ++ rules ds

abbrev pub Spaceless : Text → Type 0
Spaceless d = All (λ c. c ≢ 32) d

-- None occurs twice.
abbrev pub Once : List Text → Type 0
Once [] = Unit
Once (x ∷ xs) = (contains xs x ≡ false) × Once xs

-- Those without a space.
unfoldable pub keeps : List Text → List Text
unfolding has_space
keeps [] = []
keeps (d ∷ ds) = let rest = keeps ds in if has_space d then rest else d ∷ rest

pub rule_names-keeps : (ds : List Text) → rule_names ds ≡ spaced (keeps ds)
unfolding rule_names keeps spaced
rule_names-keeps [] = refl
rule_names-keeps (d ∷ ds) = elim (Bool-cases (has_space d)) [
  | inl e ↦ rw e (rule_names-keeps ds)
  | inr e ↦ rw e (ap (λ t. d ++ codes " " ++ t) (rule_names-keeps ds))
]

pub extra_rules-keeps : (ds : List Text) → extra_rules ds ≡ rules (keeps ds)
unfolding extra_rules keeps rules
extra_rules-keeps [] = refl
extra_rules-keeps (d ∷ ds) = elim (Bool-cases (has_space d)) [
  | inl e ↦ rw e (extra_rules-keeps ds)
  | inr e ↦ rw e (ap (λ t. d ++ codes ":\n" ++ t) (extra_rules-keeps ds))
]

and_false : (b : Bool) → (b && false) ≡ false
and_false true = refl
and_false false = refl

contains-keeps :
    (ds : List Text) (d : Text) → contains (keeps ds) d ≡ (contains ds d && not (has_space d))
unfolding contains keeps
contains-keeps [] d = refl
contains-keeps (e ∷ ds) d = elim (Bool-cases (text_eq e d)) [
  | inr other ↦ elim (Bool-cases (has_space e)) [
    | inl s ↦ rw (s, other) (contains-keeps ds d)
    | inr s ↦ rw (s, other) (contains-keeps ds d)
  ]
  | inl same ↦
      let eq = (text_eq_iff e d).0 same in
      elim (Bool-cases (has_space e)) [
        | inl s ↦
            let s' : has_space d ≡ true = subst (λ x. has_space x ≡ true) eq s in
            rw (s, contains-keeps ds d, s', same) (and_false (contains ds d))
        | inr s ↦
            let s' : has_space d ≡ false = subst (λ x. has_space x ≡ false) eq s in
            rw (s, same, s') refl
      ]
]

has_space-Spaceless : (t : Text) → (has_space t ≡ false) ↔ Spaceless t
unfolding has_space
has_space-Spaceless [] = (λ h. tt, λ h. refl)
has_space-Spaceless (c ∷ cs) =
    let iff = has_space-Spaceless cs in
    elim (Bool-cases (c == 32)) [
      | inl e ↦ (λ h. absurd (yes_no (rw e at h)), λ h. absurd (h.0 ((==_iff c 32).0 e)))
      | inr e ↦ (
        λ h. (λ q. absurd (yes_no (sym ((==_iff c 32).1 q) ∙ e)), iff.0 (rw e at h)),
        λ h. rw e (iff.1 h.1),
      )
    ]
  where
    yes_no : true ≡ false → ⊥
    yes_no h = cc

pub keeps_iff :
    (ds : List Text) (d : Text)
    → (contains (keeps ds) d ≡ true) ↔ ((contains ds d ≡ true) × Spaceless d)
keeps_iff ds d =
    let iff = has_space-Spaceless d in
    (
      λ h.
          let both = parts (contains ds d) (has_space d) (sym (contains-keeps ds d) ∙ h) in
          (both.0, iff.0 both.1),
      λ h. contains-keeps ds d ∙ together (contains ds d) (has_space d) h.0 (iff.1 h.1),
    )
  where
    parts : (a b : Bool) → (a && not b) ≡ true → (a ≡ true) × (b ≡ false)
    parts true true h = absurd cc
    parts true false h = (refl, refl)
    parts false b h = absurd cc

    together : (a b : Bool) → a ≡ true → b ≡ false → (a && not b) ≡ true
    together a b h k = rw (h, k) refl

-- ===== src/Gcc/Flat.antt =====
-- The loop over the iterator is the loop over the groups of the expanded arguments.
use sccache.Prelude.{
  ℕ, zero, suc, ◌<◌, Text, codes, starts_with, List, [], ◌∷◌, ◌++◌, ◌≡◌, refl, ◌∙◌, Option, none,
  some, Bool, true, false, arith, ◌⊎◌, inl, inr, Bool-cases,
}
use sccache.Gcc.Expand.{Next, item, ended, included, next}
use sccache.Gcc.Defs.{
  Arm, compile, output, value, preprocessor_value, target, arm_of, Parser, Round, go_on, reject,
  stuck, round, LoopEnd, on_item, after_round, parse_loop,
}
use sccache.Gcc.Groups.{takes_next, groups_from, groups, after_group, parse_groups}

-- The round of another stack.
restack : List Text → Round → Round
restack stack (go_on p old) = go_on p stack
restack stack reject = reject
restack stack stuck = stuck

round_alone :
    (t : Arm) (a : Text) (stack : List Text) (following : Next) (p : Parser)
    → takes_next t ≡ false
    → round t a stack following p ≡ restack stack (round t a [] ended p)
unfolding round restack takes_next
round_alone compile a stack following p h = refl
round_alone output a stack following p h = cc
round_alone value a stack following p h = cc
round_alone preprocessor_value a stack following p h = cc
round_alone target a stack following p h = cc
round_alone _ a stack following p h = ground arith

round_with_value :
    (t : Arm) (a v : Text) (stack rest : List Text) (p : Parser)
    → takes_next t ≡ true
    → round t a stack (item v rest) p ≡ restack rest (round t a [] (item v []) p)
unfolding round restack takes_next
round_with_value output a v stack rest p h = refl
round_with_value value a v stack rest p h = refl
round_with_value preprocessor_value a v stack rest p h = refl
round_with_value target a v stack rest p h = refl
round_with_value _ a v stack rest p h = cc

round_at_end :
    (t : Arm) (a : Text) (stack : List Text) (p : Parser)
    → takes_next t ≡ true
    → round t a stack ended p ≡ restack [] (round t a [] ended p)
unfolding round restack takes_next
round_at_end output a stack p h = refl
round_at_end value a stack p h = refl
round_at_end preprocessor_value a stack p h = refl
round_at_end target a stack p h = refl
round_at_end _ a stack p h = cc

module _ (takes_value : Text → Bool) (read : Text → Option Text) (cwd : Text) where
  -- An argument that is not replaced: it names no file, or one that is taken literally.
  abbrev pub IsLiteral : Text → Type 0
  IsLiteral a = (starts_with (codes "@") a ≡ false) ⊎ (included read cwd a ≡ none)

  -- `Expands stack out`: replacing the files' names by their words, at any depth, turns the stack
  -- into the arguments `out`.
  pub data Expands : List Text → List Text → Type 0 where
    nil : Expands [] []
    literal :
        {a : Text} {stack out : List Text}
        → IsLiteral a
        → Expands stack out
        → Expands (a ∷ stack) (a ∷ out)
    file :
        {a : Text} {words stack out : List Text}
        → starts_with (codes "@") a ≡ true
        → included read cwd a ≡ some words
        → Expands (words ++ stack) out
        → Expands (a ∷ stack) out

  -- How many arguments and files the expansion goes through.
  unfoldable pub weight : {stack out : List Text} → Expands stack out → ℕ
  weight nil = 0
  weight (literal l e) = suc (weight e)
  weight (file s i e) = suc (weight e)

  abbrev Follows : Next → List Text → ℕ → Type 0
  Follows r [] k = r ≡ ended
  Follows r (a ∷ out) k =
      (stack : List Text) × (e : Expands stack out) × (r ≡ item a stack) × (weight e < k)

  Follows-mono : (r : Next) (out : List Text) (j k : ℕ) → j < k → Follows r out j → Follows r out k
  Follows-mono r [] j k h f = f
  Follows-mono r (a ∷ out) j k h f = (f.0, f.1, f.2, omega arith)

  next-Follows :
      {stack out : List Text} (e : Expands stack out) (n : ℕ)
      → weight e < n
      → Follows (next read cwd n stack) out (weight e)
  unfolding next weight
  next-Follows e zero h = absurd (omega arith)
  next-Follows nil (suc n) h = refl
  next-Follows (literal {a} {stack} (inl plain) e) (suc n) h = (stack, e, rw plain, omega arith)
  next-Follows (literal {a} {stack} (inr l) e) (suc n) h = (
    stack,
    e,
    elim (Bool-cases (starts_with (codes "@") a)) [ inl s ↦ rw (s, l) | inr s ↦ rw s ],
    omega arith,
  )
  next-Follows {out} (file s i e) (suc n) h =
      rw (s, i)
        (Follows-mono _ out (weight e) (suc (weight e)) (omega arith)
          (next-Follows e n (omega arith)))

  module _ (m : ℕ) where
    after-restack :
        (continue : List Text → Parser → LoopEnd) (stack : List Text) (r : Round)
        → after_round takes_value read cwd m continue (restack stack r)
          ≡ after_group (continue stack) r
    unfolding after_round restack after_group
    after-restack continue stack (go_on p old) = refl
    after-restack continue stack reject = refl
    after-restack continue stack stuck = refl

    -- What the induction says of the rest of an expansion.
    abbrev Agrees : ℕ → ℕ → Type 0
    Agrees n k =
        (stack out : List Text) (e : Expands stack out) (p : Parser)
        → weight e < k
        → parse_loop takes_value read cwd m n stack p
          ≡ parse_groups takes_value (groups takes_value out) p

    after_group-Agrees :
        (n k : ℕ) (stack out : List Text) (e : Expands stack out) (r : Round)
        → Agrees n k
        → weight e < k
        → after_group (parse_loop takes_value read cwd m n stack) r
          ≡ after_group (parse_groups takes_value (groups takes_value out)) r
    unfolding after_group
    after_group-Agrees n k stack out e (go_on p old) ih h = ih stack out e p h
    after_group-Agrees n k stack out e reject ih h = refl
    after_group-Agrees n k stack out e stuck ih h = refl

    value_step :
        (n k : ℕ) (a : Text) (p : Parser) (stack o : List Text)
        → takes_next (arm_of takes_value a) ≡ true
        → Agrees n k
        → 0 < k
        → (j : ℕ) → j < k
        → Follows (next read cwd m stack) o j
        → on_item takes_value read cwd m (parse_loop takes_value read cwd m n) p (item a stack)
          ≡ parse_groups takes_value (groups_from takes_value (some a) o) p
    unfolding on_item groups_from parse_groups weight
    value_step n k a p stack [] t ih pos j lt f =
        let arm = arm_of takes_value a in
        rw (f, round_at_end arm a stack p t)
          (after-restack (parse_loop takes_value read cwd m n) [] (round arm a [] ended p)
            ∙ after_group-Agrees n k [] [] nil (round arm a [] ended p) ih pos)
    value_step n k a p stack (v ∷ o) t ih pos j lt f =
        let arm = arm_of takes_value a in
        let r = round arm a [] (item v []) p in
        rw (f.2, round_with_value arm a v stack f.0 p t)
          (after-restack (parse_loop takes_value read cwd m n) f.0 r
            ∙ after_group-Agrees n k f.0 o f.1 r ih (omega (arith, f.3)))

    item_step :
        (n k : ℕ) (a : Text) (p : Parser) (stack o : List Text) (e : Expands stack o)
        → Agrees n k
        → weight e < k
        → weight e < m
        → on_item takes_value read cwd m (parse_loop takes_value read cwd m n) p (item a stack)
          ≡ parse_groups takes_value (groups takes_value (a ∷ o)) p
    unfolding groups_from
    item_step n k a p stack o e ih h hm =
        let arm = arm_of takes_value a in
        let r = round arm a [] ended p in
        elim (Bool-cases (takes_next arm)) [
          | inl t ↦
              rw t
                (value_step n k a p stack o t ih (omega arith) (weight e) h (next-Follows e m hm))
          | inr t ↦ rw t (
              unfold on_item parse_groups in
              (rw (round_alone arm a stack (next read cwd m stack) p t) (
                after-restack (parse_loop takes_value read cwd m n) stack r
                ∙ after_group-Agrees n k stack o e r ih h)))
        ]

    by_next :
        (n k : ℕ) (p : Parser) (stack o : List Text)
        → Agrees n k
        → k < m
        → Follows (next read cwd m stack) o k
        → parse_loop takes_value read cwd m (suc n) stack p
          ≡ parse_groups takes_value (groups takes_value o) p
    unfolding parse_loop
    by_next n k p stack [] ih hm f = unfold on_item groups_from parse_groups in (rw f)
    by_next n k p stack (a ∷ o) ih hm f =
        rw f.2 (item_step n k a p f.0 o f.1 ih f.3 (omega (arith, f.3)))

    -- With fuel above the weight of the expansion, the loop over the iterator ends as the loop over
    -- the groups of the expanded arguments does.
    pub parse_loop-groups :
        (n : ℕ) {stack out : List Text} (e : Expands stack out) (p : Parser)
        → weight e < m
        → weight e < n
        → parse_loop takes_value read cwd m n stack p
          ≡ parse_groups takes_value (groups takes_value out) p
    parse_loop-groups zero e p hm hn = absurd (omega arith)
    parse_loop-groups (suc n) {stack} {out} e p hm hn =
        by_next n (weight e) p stack out
          (λ st o e' q h. parse_loop-groups n e' q (omega arith) (omega arith)) hm
          (next-Follows e m hm)

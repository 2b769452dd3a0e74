-- ===== src/Gcc/Collect.antt =====
-- The loop over groups collects what the reference functions say.
use sccache.Prelude.{
  Text, text_eq, codes, List, [], ◌∷◌, ◌++◌, ◌≡◌, refl, Option, none, some, Bool, true, ◌||◌, arith,
  append_assoc, append-nil, Bool-cases, inl, inr,
}
use sccache.Gcc.Defs.{
  Arm, compile, output, dwarf, value, preprocessor_value, target, unsupported, dependency, option,
  input, arm_of, Parser, list_of, is_given, go_on, with_next, round, LoopEnd, finished, rejected,
}
use sccache.Gcc.Groups.{
  Group, words, any_arm, last_value, next_of, after_group, parse_groups, Collected, is_common,
  is_preprocessor,
}

with_next-next_of :
    (v : Option Text) (f : Option Text → Parser) → with_next (next_of v) f ≡ go_on (f v) []
unfolding with_next
with_next-next_of none f = refl
with_next-next_of (some v) f = refl

not_finished : {q : Parser} → ◌≡◌ {A = LoopEnd} rejected (finished q) → ⊥
not_finished h = cc

module _ (takes_value : Text → Bool) (a : Text) (v : Option Text) (gs : List Group) (q : Parser)
    (ih : (p : Parser)
      → parse_groups takes_value gs p ≡ finished q
      → Collected takes_value gs p q) where
  Collected-step :
      (t : Arm) (p : Parser)
      → arm_of takes_value a ≡ t
      → after_group (parse_groups takes_value gs) (round t a [] (next_of v) p) ≡ finished q
      → Collected takes_value ((a, v) ∷ gs) p q
  unfolding words any_arm last_value round after_group
  Collected-step compile p e h = let c = ih (record p { compilation = true }) h in ground (arith)
  Collected-step output p e h =
      let c =
        ih (record p { output_arg = v })
          (rw (with_next-next_of v (λ w. record p { output_arg = w })) at h) in
      ground (arith)
  Collected-step dwarf p e h =
      let c = ih (record p { split_dwarf = true; common_args = p.common_args ++ a ∷ [] }) h in
      ground (arith, append_assoc p.common_args (a ∷ []) (words takes_value is_common gs))
  Collected-step value p e h =
      let c =
        ih (record p { common_args = p.common_args ++ a ∷ list_of v })
          (rw (with_next-next_of v (λ w. record p { common_args = p.common_args ++ a ∷ list_of w }))
            at h) in
      ground (arith, append_assoc p.common_args (a ∷ list_of v) (words takes_value is_common gs))
  Collected-step preprocessor_value p e h =
      let c =
        ih (record p { preprocessor_args = p.preprocessor_args ++ a ∷ list_of v })
          (rw
            (with_next-next_of v
              (λ w. record p { preprocessor_args = p.preprocessor_args ++ a ∷ list_of w }))
            at h) in
      ground (
        arith,
        append_assoc p.preprocessor_args (a ∷ list_of v) (words takes_value is_preprocessor gs),
      )
  Collected-step target p e h =
      let c =
        ih (record p { dep_target = v })
          (rw (with_next-next_of v (λ w. record p { dep_target = w })) at h) in
      ground (arith)
  Collected-step dependency p e h =
      let c =
        ih
          (record p {
            need_explicit_dep_target = true;
            preprocessor_args = p.preprocessor_args ++ a ∷ [];
          })
          h in
      ground
        (arith, append_assoc p.preprocessor_args (a ∷ []) (words takes_value is_preprocessor gs))
  Collected-step option p e h =
      let c = ih (record p { common_args = p.common_args ++ a ∷ [] }) h in
      ground (arith, append_assoc p.common_args (a ∷ []) (words takes_value is_common gs))
  Collected-step unsupported p e h = absurd (not_finished h)
  Collected-step input p e h = elim (Bool-cases (is_given p.input_arg || text_eq a (codes "-"))) [
    | inl bad ↦ absurd (not_finished (rw bad at h))
    | inr good ↦ let c = ih (record p { input_arg = some a }) (rw good at h) in ground arith
  ]

pub parse_groups-Collected :
    (takes_value : Text → Bool) (gs : List Group) (p q : Parser)
    → parse_groups takes_value gs p ≡ finished q
    → Collected takes_value gs p q
unfolding parse_groups words any_arm last_value
parse_groups-Collected takes_value [] p q h = ground (
  arith,
  append-nil p.common_args,
  append-nil p.preprocessor_args,
  append-nil (list_of p.input_arg),
)
parse_groups-Collected takes_value ((a, v) ∷ gs) p q h =
    Collected-step takes_value a v gs q (λ r. parse_groups-Collected takes_value gs r q)
      (arm_of takes_value a) p refl h

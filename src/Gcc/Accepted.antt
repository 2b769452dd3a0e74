-- ===== src/Gcc/Accepted.antt =====
-- What the parser of gcc's and clang's command lines answers.
use sccache.Prelude.{
  ℕ, ◌<◌, Text, codes, List, [], ◌∷◌, ◌++◌, ◌≡◌, ◌≢◌, refl, ◌∙◌, ap, sym, Option, none, some, Bool,
  true, false, if◌then◌else◌, arith, subst, Bool-cases, Option-cases, inl, inr,
}
use sccache.FilePath.Names.{extension}
use sccache.Compiler.{ParsedArguments, CompilerArguments, ok, cannot_cache, not_compilation}
use sccache.Gcc.Defs.{
  Arm, compile as compile_arm, with_next, Parser, new_parser, list_of, LoopEnd, finished, rejected,
  no_fuel, Round, go_on, reject, stuck, round, known_extension, outputs_of, unwrap_or, with_output,
  with_input, finish, conclude, parse_arguments, arm_of,
}
use sccache.Gcc.Groups.{
  Group, words, any_arm, last_value, groups, parse_groups, after_group, next_of, Collected,
  is_common, is_preprocessor, is_compile, is_output, is_dwarf, is_target, is_dependency,
  is_unsupported, is_input,
}
use sccache.Gcc.Collect.{parse_groups-Collected}
use sccache.Gcc.Flat.{Expands, weight, parse_loop-groups}

-- What an accepted command line is, and what was parsed from it, by its groups.
pub record Accepted (takes_value : Text → Bool) (gs : List Group) (a : ParsedArguments)
    : Type 0 where
  pub is_compilation : any_arm takes_value is_compile gs ≡ true
  pub all_supported : any_arm takes_value is_unsupported gs ≡ false
  pub one_input : words takes_value is_input gs ≡ a.input ∷ []
  pub input_extension : extension a.input ≡ some a.extension
  pub extension_known : known_extension a.extension ≡ true
  pub no_depfile : a.depfile ≡ none
  pub object : Text
  pub last_output : last_value takes_value is_output none gs ≡ some object
  pub outputs_eq : a.outputs ≡ outputs_of object (any_arm takes_value is_dwarf gs)
  pub common_args_eq : a.common_args ≡ words takes_value is_common gs
  pub preprocessor_args_eq : a.preprocessor_args ≡ (
      if any_arm takes_value is_dependency gs
      then words takes_value is_preprocessor gs
        ++ codes "-MT" ∷ unwrap_or (last_value takes_value is_target none gs) object ∷ []
      else words takes_value is_preprocessor gs)

-- The same of the loop's variables.
pub record Finished (p : Parser) (a : ParsedArguments) : Type 0 where
  pub compiles : p.compilation ≡ true
  pub input_eq : p.input_arg ≡ some a.input
  pub extension_eq : extension a.input ≡ some a.extension
  pub known : known_extension a.extension ≡ true
  pub depfile_eq : a.depfile ≡ none
  pub object : Text
  pub output_eq : p.output_arg ≡ some object
  pub outputs_eq : a.outputs ≡ outputs_of object p.split_dwarf
  pub common_eq : a.common_args ≡ p.common_args
  pub preprocessor_eq : a.preprocessor_args ≡ (
      if p.need_explicit_dep_target
      then p.preprocessor_args ++ codes "-MT" ∷ unwrap_or p.dep_target object ∷ []
      else p.preprocessor_args)

not_ok : {a : ParsedArguments} → cannot_cache ≡ ok a → ⊥
not_ok h = cc

ok_inj : {a b : ParsedArguments} → CompilerArguments.ok a ≡ ok b → a ≡ b
ok_inj h = cc

with_output-Finished :
    (p : Parser) (i e : Text) (o : Option Text) (a : ParsedArguments)
    → p.output_arg ≡ o
    → p.compilation ≡ true
    → p.input_arg ≡ some i
    → extension i ≡ some e
    → known_extension e ≡ true
    → with_output p i e o ≡ ok a
    → Finished p a
unfolding with_output
with_output-Finished p i e none a ho hc hi he hk h = absurd (not_ok h)
with_output-Finished p i e (some o) a ho hc hi he hk h = subst (Finished p) (ok_inj h) (record {
  compiles = hc;
  input_eq = hi;
  extension_eq = he;
  known = hk;
  depfile_eq = refl;
  object = o;
  output_eq = ho;
  outputs_eq = refl;
  common_eq = refl;
  preprocessor_eq = refl;
})

with_input-Finished :
    (p : Parser) (i : Option Text) (a : ParsedArguments)
    → p.compilation ≡ true
    → p.input_arg ≡ i
    → with_input p i ≡ ok a
    → Finished p a
unfolding with_input
with_input-Finished p none a hc hi h = absurd (not_ok h)
with_input-Finished p (some i) a hc hi h = elim (Option-cases (extension i)) [
  | inl e ↦ absurd (not_ok (rw (e, with_input) at h))
  | inr (x, e) ↦ elim (Bool-cases (known_extension x)) [
    | inl k ↦ with_output-Finished p i x p.output_arg a refl hc hi e k (rw (e, with_input, k) at h)
    | inr k ↦ absurd (not_ok (rw (e, with_input, k) at h))
  ]
]

pub finish-Finished : (p : Parser) (a : ParsedArguments) → finish p ≡ ok a → Finished p a
unfolding finish
finish-Finished p a h = elim (Bool-cases p.compilation) [
  | inl c ↦ with_input-Finished p p.input_arg a c refl (rw c at h)
  | inr c ↦ absurd (no (rw c at h))
]
  where
    no : not_compilation ≡ ok a → ⊥
    no e = cc

round-ne-stuck :
    (t : Arm) (a : Text) (v : Option Text) (p : Parser) → round t a [] (next_of v) p ≢ stuck
unfolding round with_next
round-ne-stuck compile_arm a v p = λ e. cc
round-ne-stuck _ a none p = λ e. ground arith
round-ne-stuck _ a (some v) p = λ e. ground arith

after_group-ne-no_fuel :
    (continue : Parser → LoopEnd) (r : Round)
    → r ≢ stuck
    → ((p : Parser) → continue p ≢ no_fuel)
    → after_group continue r ≢ no_fuel
unfolding after_group
after_group-ne-no_fuel continue (go_on p stack) h c = c p
after_group-ne-no_fuel continue reject h c = λ e. cc
after_group-ne-no_fuel continue stuck h c = absurd (h refl)

parse_groups-ne-no_fuel :
    (takes_value : Text → Bool) (gs : List Group) (p : Parser)
    → parse_groups takes_value gs p ≢ no_fuel
unfolding parse_groups
parse_groups-ne-no_fuel takes_value [] p = λ e. cc
parse_groups-ne-no_fuel takes_value ((a, v) ∷ gs) p =
    after_group-ne-no_fuel (parse_groups takes_value gs) _
      (round-ne-stuck (arm_of takes_value a) a v p) (parse_groups-ne-no_fuel takes_value gs)

Finished-Accepted :
    (takes_value : Text → Bool) (gs : List Group) (q : Parser) (a : ParsedArguments)
    → Collected takes_value gs new_parser q
    → Finished q a
    → Accepted takes_value gs a
Finished-Accepted takes_value gs q a c f = record {
  is_compilation = ground (arith, c.compilation, f.compiles);
  all_supported = c.all_supported;
  one_input = c.inputs ∙ ap list_of f.input_eq;
  input_extension = f.extension_eq;
  extension_known = f.known;
  no_depfile = f.depfile_eq;
  object = f.object;
  last_output = sym c.output_arg ∙ f.output_eq;
  outputs_eq = f.outputs_eq ∙ ap (outputs_of f.object) c.split_dwarf;
  common_args_eq = f.common_eq ∙ c.common_args;
  preprocessor_args_eq =
      f.preprocessor_eq ∙ simp (c.need_explicit_dep_target, c.preprocessor_args, c.dep_target);
}

module _ (takes_value : Text → Bool) (read : Text → Option Text) (cwd : Text) (m n : ℕ)
    {args out : List Text} (e : Expands takes_value read cwd args out)
    (hm : weight takes_value read cwd e < m) (hn : weight takes_value read cwd e < n) where
  parse_arguments-groups :
      parse_arguments takes_value read cwd m n args
      ≡ conclude takes_value read cwd m
          (parse_groups takes_value (groups takes_value out) new_parser)
  unfolding parse_arguments
  parse_arguments-groups =
      ap (conclude takes_value read cwd m)
        (parse_loop-groups takes_value read cwd m n e new_parser hm hn)

  -- If the `@file` arguments expand at all, and both bounds are above the weight of the expansion,
  -- then the parser answers.
  pub parse_arguments_total : parse_arguments takes_value read cwd m n args ≢ none
  unfolding conclude
  parse_arguments_total h =
      answered (parse_groups takes_value (groups takes_value out) new_parser)
        (parse_groups-ne-no_fuel takes_value (groups takes_value out) new_parser)
        (sym parse_arguments-groups ∙ h)
    where
      answered : (l : LoopEnd) → l ≢ no_fuel → conclude takes_value read cwd m l ≡ none → ⊥
      answered (finished p) ne q = cc
      answered rejected ne q = cc
      answered no_fuel ne q = ne refl

  -- If the parser accepts, then the expanded arguments hold `-c`, no unsupported argument and one
  -- input with a known extension. The arguments for the preprocessor and the common ones are those
  -- of the command line, in order and with their values, and the outputs come from the last `-o`.
  pub parse_arguments-Accepted :
      (a : ParsedArguments)
      → parse_arguments takes_value read cwd m n args ≡ some (ok a)
      → Accepted takes_value (groups takes_value out) a
  unfolding conclude
  parse_arguments-Accepted a h =
      by_end (parse_groups takes_value (groups takes_value out) new_parser) refl
        (sym parse_arguments-groups ∙ h)
    where
      some_inj : {x y : CompilerArguments} → some x ≡ some y → x ≡ y
      some_inj q = cc

      by_end :
          (l : LoopEnd)
          → parse_groups takes_value (groups takes_value out) new_parser ≡ l
          → conclude takes_value read cwd m l ≡ some (ok a)
          → Accepted takes_value (groups takes_value out) a
      by_end (finished p) g q =
          Finished-Accepted takes_value (groups takes_value out) p a
            (parse_groups-Collected takes_value (groups takes_value out) new_parser p g)
            (finish-Finished p a (some_inj q))
      by_end rejected g q = absurd (not_ok (some_inj q))
      by_end no_fuel g q = absurd (none_ne q)
        where
          none_ne : none ≡ some (ok a) → ⊥
          none_ne z = cc

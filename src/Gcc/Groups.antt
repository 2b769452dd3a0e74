-- ===== src/Gcc/Groups.antt =====
-- A reference description of the parser: the expanded arguments fall into groups, an argument with
-- the value that it takes, and each variable of the loop is a function of the groups.
use sccache.Prelude.{
  Text, List, [], ◌∷◌, ◌++◌, ◌≡◌, Option, none, some, Bool, true, false, ◌||◌, if◌then◌else◌,
}
use sccache.Gcc.Expand.{Next, item, ended}
use sccache.Gcc.Defs.{
  Arm, compile, output, dwarf, value, preprocessor_value, target, unsupported, dependency, option,
  input, arm_of, Parser, list_of, Round, go_on, reject, stuck, round, LoopEnd, finished, rejected,
  no_fuel,
}

abbrev pub Group : Type 0
Group = Text × Option Text

unfoldable pub takes_next : Arm → Bool
takes_next output = true
takes_next value = true
takes_next preprocessor_value = true
takes_next target = true
takes_next _ = false

module _ (takes_value : Text → Bool) where
  -- `pending` is an argument that waits for its value.
  unfoldable pub groups_from : Option Text → List Text → List Group
  groups_from none [] = []
  groups_from (some a) [] = (a, none) ∷ []
  groups_from none (a ∷ args) =
      let waiting = groups_from (some a) args in
      let rest = groups_from none args in
      if takes_next (arm_of takes_value a) then waiting else (a, none) ∷ rest
  groups_from (some a) (v ∷ args) = (a, some v) ∷ groups_from none args

  abbrev pub groups : List Text → List Group
  groups args = groups_from none args

  abbrev pub arm : Group → Arm
  arm g = arm_of takes_value g.0

  -- The words of the groups whose arm is kept, in order.
  unfoldable pub words : (Arm → Bool) → List Group → List Text
  unfolding takes_next
  words keep [] = []
  words keep ((a, v) ∷ gs) =
      let rest = words keep gs in
      let t = arm_of takes_value a in
      if keep t then (a ∷ (if takes_next t then list_of v else [])) ++ rest else rest

  unfoldable pub any_arm : (Arm → Bool) → List Group → Bool
  any_arm keep [] = false
  any_arm keep ((a, v) ∷ gs) = keep (arm_of takes_value a) || any_arm keep gs

  -- The value of the last group whose arm is kept, or `old` if there is none.
  unfoldable pub last_value : (Arm → Bool) → Option Text → List Group → Option Text
  last_value keep old [] = old
  last_value keep old ((a, v) ∷ gs) =
      last_value keep (if keep (arm_of takes_value a) then v else old) gs

abbrev pub is_common : Arm → Bool
is_common dwarf = true
is_common value = true
is_common option = true
is_common _ = false

abbrev pub is_preprocessor : Arm → Bool
is_preprocessor preprocessor_value = true
is_preprocessor dependency = true
is_preprocessor _ = false

abbrev pub is_compile : Arm → Bool
is_compile compile = true
is_compile _ = false

abbrev pub is_output : Arm → Bool
is_output output = true
is_output _ = false

abbrev pub is_dwarf : Arm → Bool
is_dwarf dwarf = true
is_dwarf _ = false

abbrev pub is_target : Arm → Bool
is_target target = true
is_target _ = false

abbrev pub is_dependency : Arm → Bool
is_dependency dependency = true
is_dependency _ = false

abbrev pub is_unsupported : Arm → Bool
is_unsupported unsupported = true
is_unsupported _ = false

abbrev pub is_input : Arm → Bool
is_input input = true
is_input _ = false

-- The loop over groups: the same rounds, with the value of the group as the next argument.
abbrev pub next_of : Option Text → Next
next_of none = ended
next_of (some v) = item v []

unfoldable pub after_group : (Parser → LoopEnd) → Round → LoopEnd
after_group continue (go_on p stack) = continue p
after_group continue reject = rejected
after_group continue stuck = no_fuel

unfoldable pub parse_groups : (Text → Bool) → List Group → Parser → LoopEnd
unfolding after_group
parse_groups takes_value [] p = finished p
parse_groups takes_value ((a, v) ∷ gs) p =
    after_group (parse_groups takes_value gs) (round (arm_of takes_value a) a [] (next_of v) p)

-- What the variables of the loop hold at its end, `q`, from what they held, `p`.
pub record Collected (takes_value : Text → Bool) (gs : List Group) (p q : Parser) : Type 0 where
  pub common_args : q.common_args ≡ p.common_args ++ words takes_value is_common gs
  pub preprocessor_args :
      q.preprocessor_args ≡ p.preprocessor_args ++ words takes_value is_preprocessor gs
  pub compilation : q.compilation ≡ (p.compilation || any_arm takes_value is_compile gs)
  pub split_dwarf : q.split_dwarf ≡ (p.split_dwarf || any_arm takes_value is_dwarf gs)
  pub need_explicit_dep_target :
      q.need_explicit_dep_target
      ≡ (p.need_explicit_dep_target || any_arm takes_value is_dependency gs)
  pub output_arg : q.output_arg ≡ last_value takes_value is_output p.output_arg gs
  pub dep_target : q.dep_target ≡ last_value takes_value is_target p.dep_target gs
  pub all_supported : any_arm takes_value is_unsupported gs ≡ false
  -- The input there was, or the only input argument, and never two.
  pub inputs : (list_of p.input_arg ++ words takes_value is_input gs ≡ list_of q.input_arg)

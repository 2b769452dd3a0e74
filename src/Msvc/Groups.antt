-- ===== src/Msvc/Groups.antt =====
-- A reference description of the parser: the arguments, each with the value that it takes, and each
-- variable of the loop as a function of them.
use sccache.Prelude.{
  Text, List, [], ◌∷◌, ◌++◌, ◌≡◌, refl, Option, none, some, Bool, true, false, ◌||◌, if◌then◌else◌,
  drop, ap, fun_ext, ℕ,
}
use sccache.Gcc.{list_of}
use sccache.Msvc.Defs.{
  Arm, compile, output, value, deps, unsupported, debug, pdb_file, option, input, arm_of, Parser,
  round, parse_loop,
}

abbrev pub Group : Type 0
Group = Text × Option Text

unfoldable pub takes_next : Arm → Bool
takes_next value = true
takes_next _ = false

unfoldable pub groups : List Text → List Group
unfolding takes_next
groups [] = []
groups (arg ∷ []) = (arg, none) ∷ []
groups (arg ∷ v ∷ args) =
    let behind = groups args in
    let rest = groups (v ∷ args) in
    if takes_next (arm_of arg) then (arg, some v) ∷ behind else (arg, none) ∷ rest

-- The words of the groups whose arm is kept, in order.
unfoldable pub words : (Arm → Bool) → List Group → List Text
unfolding takes_next
words keep [] = []
words keep ((a, v) ∷ gs) =
    let rest = words keep gs in
    let t = arm_of a in
    if keep t then (a ∷ (if takes_next t then list_of v else [])) ++ rest else rest

unfoldable pub any_arm : (Arm → Bool) → List Group → Bool
any_arm keep [] = false
any_arm keep ((a, v) ∷ gs) = keep (arm_of a) || any_arm keep gs

-- What stands behind the first `n` characters of the last group whose arm is kept.
unfoldable pub last_suffix : ℕ → (Arm → Bool) → Option Text → List Group → Option Text
last_suffix n keep old [] = old
last_suffix n keep old ((a, v) ∷ gs) =
    last_suffix n keep (if keep (arm_of a) then some (drop n a) else old) gs

abbrev pub is_common : Arm → Bool
is_common value = true
is_common debug = true
is_common pdb_file = true
is_common option = true
is_common _ = false

abbrev pub is_compile : Arm → Bool
is_compile compile = true
is_compile _ = false

abbrev pub is_output : Arm → Bool
is_output output = true
is_output _ = false

abbrev pub is_deps : Arm → Bool
is_deps deps = true
is_deps _ = false

abbrev pub is_debug : Arm → Bool
is_debug debug = true
is_debug _ = false

abbrev pub is_pdb_file : Arm → Bool
is_pdb_file pdb_file = true
is_pdb_file _ = false

abbrev pub is_unsupported : Arm → Bool
is_unsupported unsupported = true
is_unsupported _ = false

abbrev pub is_input : Arm → Bool
is_input input = true
is_input _ = false

-- The loop over groups.
unfoldable pub parse_groups : List Group → Parser → Option Parser
parse_groups [] p = some p
parse_groups ((a, v) ∷ gs) p = round (arm_of a) a v (parse_groups gs) (parse_groups gs) p

-- No value without a taker.
round_at :
    (t : Arm) (a v : Text) (skip go : Parser → Option Parser) (gs ws : List Group) (p : Parser)
    → ((q : Parser) → skip q ≡ parse_groups ws q)
    → ((q : Parser) → go q ≡ parse_groups gs q)
    → arm_of a ≡ t
    → round t a (some v) skip go p
      ≡ parse_groups (if takes_next t then (a, some v) ∷ ws else (a, none) ∷ gs) p
unfolding round takes_next parse_groups
round_at value a v skip go gs ws p hs hg e = rw (e, round) (hs _)
round_at compile a v skip go gs ws p hs hg e = rw (e, round) (hg _)
round_at output a v skip go gs ws p hs hg e = rw (e, round) (hg _)
round_at deps a v skip go gs ws p hs hg e = rw (e, round) (hg _)
round_at unsupported a v skip go gs ws p hs hg e = rw (e, round) refl
round_at debug a v skip go gs ws p hs hg e = rw (e, round) (hg _)
round_at pdb_file a v skip go gs ws p hs hg e = rw (e, round) (hg _)
round_at option a v skip go gs ws p hs hg e = rw (e, round) (hg _)
round_at input a v skip go gs ws p hs hg e =
    rw (e, round, hg (record p { input_arg = some a })) refl

pub parse_loop-groups :
    (args : List Text) (p : Parser) → parse_loop args p ≡ parse_groups (groups args) p
unfolding parse_loop groups parse_groups
parse_loop-groups [] p = unfold parse_groups in refl
parse_loop-groups (a ∷ []) p = ap (λ f. round (arm_of a) a none f f p) (fun_ext (λ q. refl))
parse_loop-groups (a ∷ v ∷ args) p =
    round_at (arm_of a) a v (parse_loop args) (parse_loop (v ∷ args)) (groups (v ∷ args))
      (groups args) p (parse_loop-groups args) (parse_loop-groups (v ∷ args)) refl

-- What the variables of the loop hold at its end, `q`, from what they held, `p`.
pub record Collected (gs : List Group) (p q : Parser) : Type 0 where
  pub common_args : q.common_args ≡ p.common_args ++ words is_common gs
  pub compilation : q.compilation ≡ (p.compilation || any_arm is_compile gs)
  pub debug_info : q.debug_info ≡ (p.debug_info || any_arm is_debug gs)
  pub output_arg : q.output_arg ≡ last_suffix 3 is_output p.output_arg gs
  pub pdb : q.pdb ≡ last_suffix 3 is_pdb_file p.pdb gs
  pub depfile : q.depfile ≡ last_suffix 5 is_deps p.depfile gs
  pub all_supported : any_arm is_unsupported gs ≡ false
  -- The input there was, or the only input argument, and never two.
  pub inputs : list_of p.input_arg ++ words is_input gs ≡ list_of q.input_arg

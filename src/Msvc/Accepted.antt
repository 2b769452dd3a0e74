-- ===== src/Msvc/Accepted.antt =====
-- What the parser of MSVC's command lines accepts.
use sccache.Prelude.{
  Text, List, [], ◌∷◌, ◌++◌, ◌≡◌, refl, ◌∙◌, ap, sym, subst, Option, none, some, true, false, drop,
  arith, append_assoc, append-nil, Bool-cases, Option-cases, inl, inr,
}
use sccache.FilePath.Names.{extension}
use sccache.Compiler.{ParsedArguments, CompilerArguments, ok, cannot_cache, not_compilation}
use sccache.Gcc.{list_of, is_given}
use sccache.Msvc.Defs.{
  Arm, compile, output, value, deps, unsupported, debug, pdb_file, option, input, arm_of, Parser,
  new_parser, round, outputs_of, with_outputs, with_output, with_extension, with_input, finish,
  conclude, parse_arguments,
}
use sccache.Msvc.Groups.{
  Group, groups, words, any_arm, last_suffix, is_common, is_compile, is_output, is_deps, is_debug,
  is_pdb_file, is_unsupported, is_input, parse_groups, parse_loop-groups, Collected,
}

not_finished : {q : Parser} → ◌≡◌ {A = Option Parser} none (some q) → ⊥
not_finished h = cc

module _ (a : Text) (v : Option Text) (gs : List Group) (q : Parser)
    (ih : (p : Parser) → parse_groups gs p ≡ some q → Collected gs p q) where
  Collected-step :
      (t : Arm) (p : Parser)
      → arm_of a ≡ t
      → round t a v (parse_groups gs) (parse_groups gs) p ≡ some q
      → Collected ((a, v) ∷ gs) p q
  unfolding words any_arm last_suffix round
  Collected-step compile p e h = let c = ih (record p { compilation = true }) h in ground arith
  Collected-step output p e h =
      let c = ih (record p { output_arg = some (drop 3 a) }) h in ground arith
  Collected-step value p e h =
      let c = ih (record p { common_args = p.common_args ++ a ∷ list_of v }) h in
      ground (arith, append_assoc p.common_args (a ∷ list_of v) (words is_common gs))
  Collected-step deps p e h = let c = ih (record p { depfile = some (drop 5 a) }) h in ground arith
  Collected-step unsupported p e h = absurd (not_finished h)
  Collected-step debug p e h =
      let c = ih (record p { debug_info = true; common_args = p.common_args ++ a ∷ [] }) h in
      ground (arith, append_assoc p.common_args (a ∷ []) (words is_common gs))
  Collected-step pdb_file p e h =
      let c = ih (record p { pdb = some (drop 3 a); common_args = p.common_args ++ a ∷ [] }) h in
      ground (arith, append_assoc p.common_args (a ∷ []) (words is_common gs))
  Collected-step option p e h =
      let c = ih (record p { common_args = p.common_args ++ a ∷ [] }) h in
      ground (arith, append_assoc p.common_args (a ∷ []) (words is_common gs))
  Collected-step input p e h = elim (Bool-cases (is_given p.input_arg)) [
    | inl given ↦ absurd (not_finished (rw given at h))
    | inr new ↦ let c = ih (record p { input_arg = some a }) (rw new at h) in ground arith
  ]

parse_groups-Collected :
    (gs : List Group) (p q : Parser) → parse_groups gs p ≡ some q → Collected gs p q
unfolding parse_groups words any_arm last_suffix
parse_groups-Collected [] p q h =
    ground (arith, append-nil p.common_args, append-nil (list_of p.input_arg))
parse_groups-Collected ((a, v) ∷ gs) p q h =
    Collected-step a v gs q (λ r. parse_groups-Collected gs r q) (arm_of a) p refl h

-- What an accepted command line is, and what was parsed from it, by its groups.
pub record Accepted (gs : List Group) (a : ParsedArguments) : Type 0 where
  pub is_compilation : any_arm is_compile gs ≡ true
  pub all_supported : any_arm is_unsupported gs ≡ false
  pub one_input : words is_input gs ≡ a.input ∷ []
  pub input_extension : extension a.input ≡ some a.extension
  pub object : Text
  pub last_output : last_suffix 3 is_output none gs ≡ some object
  pub outputs_eq :
      outputs_of object (any_arm is_debug gs) (last_suffix 3 is_pdb_file none gs) ≡ some a.outputs
  pub depfile_eq : a.depfile ≡ last_suffix 5 is_deps none gs
  pub common_args_eq : a.common_args ≡ words is_common gs
  pub no_preprocessor_args : a.preprocessor_args ≡ []

-- The same of the loop's variables.
pub record Finished (p : Parser) (a : ParsedArguments) : Type 0 where
  pub compiles : p.compilation ≡ true
  pub input_eq : p.input_arg ≡ some a.input
  pub extension_eq : extension a.input ≡ some a.extension
  pub object : Text
  pub output_eq : p.output_arg ≡ some object
  pub outputs_eq : outputs_of object p.debug_info p.pdb ≡ some a.outputs
  pub depfile_eq : a.depfile ≡ p.depfile
  pub common_eq : a.common_args ≡ p.common_args
  pub no_preprocessor_args : a.preprocessor_args ≡ []

not_ok : {a : ParsedArguments} → cannot_cache ≡ ok a → ⊥
not_ok h = cc

ok_inj : {a b : ParsedArguments} → CompilerArguments.ok a ≡ ok b → a ≡ b
ok_inj h = cc

with_output-Finished :
    (p : Parser) (i e : Text) (o : Option Text) (a : ParsedArguments)
    → p.output_arg ≡ o
    → p.compilation ≡ true
    → p.input_arg ≡ some i
    → extension i ≡ some e
    → with_output p i e o ≡ ok a
    → Finished p a
unfolding with_output with_outputs
with_output-Finished p i e none a ho hc hi he h = absurd (not_ok h)
with_output-Finished p i e (some o) a ho hc hi he h =
    elim (Option-cases (outputs_of o p.debug_info p.pdb)) [
      | inl bad ↦ absurd (not_ok (rw (bad, with_outputs) at h))
      | inr (outputs, good) ↦ subst (Finished p) (ok_inj (rw (good, with_outputs) at h)) (record {
        compiles = hc;
        input_eq = hi;
        extension_eq = he;
        object = o;
        output_eq = ho;
        outputs_eq = good;
        depfile_eq = refl;
        common_eq = refl;
        no_preprocessor_args = refl;
      })
    ]

with_input-Finished :
    (p : Parser) (i : Option Text) (a : ParsedArguments)
    → p.compilation ≡ true
    → p.input_arg ≡ i
    → with_input p i ≡ ok a
    → Finished p a
unfolding with_input with_extension
with_input-Finished p none a hc hi h = absurd (not_ok h)
with_input-Finished p (some i) a hc hi h = elim (Option-cases (extension i)) [
  | inl e ↦ absurd (not_ok (rw (e, with_extension) at h))
  | inr (x, e) ↦
      with_output-Finished p i x p.output_arg a refl hc hi e (rw (e, with_extension) at h)
]

pub finish-Finished : (p : Parser) (a : ParsedArguments) → finish p ≡ ok a → Finished p a
unfolding finish
finish-Finished p a h = elim (Bool-cases p.compilation) [
  | inl c ↦ with_input-Finished p p.input_arg a c refl (rw c at h)
  | inr c ↦ absurd (other (rw c at h))
]
  where
    other : not_compilation ≡ ok a → ⊥
    other e = cc

Finished-Accepted :
    (gs : List Group) (q : Parser) (a : ParsedArguments)
    → Collected gs new_parser q
    → Finished q a
    → Accepted gs a
Finished-Accepted gs q a c f = record {
  is_compilation = ground (arith, c.compilation, f.compiles);
  all_supported = c.all_supported;
  one_input = c.inputs ∙ ap list_of f.input_eq;
  input_extension = f.extension_eq;
  object = f.object;
  last_output = sym c.output_arg ∙ f.output_eq;
  outputs_eq =
      sym (ap (λ b. outputs_of f.object b (last_suffix 3 is_pdb_file none gs)) c.debug_info)
      ∙ sym (ap (outputs_of f.object q.debug_info) c.pdb)
      ∙ f.outputs_eq;
  depfile_eq = f.depfile_eq ∙ c.depfile;
  common_args_eq = f.common_eq ∙ c.common_args;
  no_preprocessor_args = f.no_preprocessor_args;
}

-- If the parser accepts, then the command line has `-c`, no unsupported argument and one input with
-- an extension. The object file is that of the last `-Fo`, the dependency file that of the last
-- `-deps`, and the common arguments are those of the command line, in order and with their values.
-- With `-Zi` there is a `-Fd`, whose last file is an output too.
pub parse_arguments_lem :
    (args : List Text) (a : ParsedArguments)
    → parse_arguments args ≡ ok a
    → Accepted (groups args) a
unfolding parse_arguments conclude
parse_arguments_lem args a h =
    by_end (parse_groups (groups args) new_parser) refl
      (ap conclude (sym (parse_loop-groups args new_parser)) ∙ h)
  where
    by_end :
        (o : Option Parser)
        → parse_groups (groups args) new_parser ≡ o
        → conclude o ≡ ok a
        → Accepted (groups args) a
    by_end none e g = absurd (not_ok g)
    by_end (some q) e g =
        Finished-Accepted (groups args) q a (parse_groups-Collected (groups args) new_parser q e)
          (finish-Finished q a g)

-- ===== src/Gcc/Compile.antt =====
-- The parser and the commands together, and files that name themselves.
use sccache.Prelude.{
  ℕ, zero, suc, ◌<◌, Text, text_eq, codes, starts_with, List, ◌∷◌, ◌++◌, ◌≡◌, refl, ◌∙◌, ap, Option,
  none, some, Bool, true, Bool-cases, inl, inr,
}
use sccache.Compiler.{ParsedArguments, ok, get_output}
use sccache.Gcc.Expand.{out_of_fuel, included, next}
use sccache.Gcc.Defs.{known_extension, outputs_of, parse_arguments, conclude, parse_loop, on_item}
use sccache.Gcc.Groups.{words, groups, is_common}
use sccache.Gcc.Flat.{Expands, weight}
use sccache.Gcc.Commands.{run, compile, compile_to, language_of}
use sccache.Gcc.Accepted.{parse_arguments-Accepted}

language_of_known :
    (e : Text) → known_extension e ≡ true → (language : Text) × (language_of e ≡ some language)
unfolding known_extension language_of
language_of_known e h = elim (Bool-cases (text_eq e (codes "c"))) [
  | inl c ↦ (codes "cpp-output", rw c)
  | inr c ↦ (codes "c++-cpp-output", rw (c, (rw c at h)))
]

get_output-outputs_of : (o : Text) (b : Bool) → get_output (codes "obj") (outputs_of o b) ≡ some o
unfolding get_output outputs_of text_eq
get_output-outputs_of o b = refl

module _ (takes_value : Text → Bool) (read : Text → Option Text) (cwd : Text) where
  -- What the parser accepts can be compiled: the command has the output file, a language that the
  -- compiler knows for preprocessed input, and the common arguments of the command line.
  pub compile-parse_arguments :
      (m n : ℕ) {args out : List Text} (e : Expands takes_value read cwd args out)
      → weight takes_value read cwd e < m
      → weight takes_value read cwd e < n
      → (a : ParsedArguments) → parse_arguments takes_value read cwd m n args ≡ some (ok a)
      → (language : Text) × (object : Text) × (language_of a.extension ≡ some language)
        × (compile a
            ≡ run (
                codes "-c"
                ∷ codes "-x"
                ∷ language
                ∷ codes "-"
                ∷ codes "-o"
                ∷ object
                ∷ words takes_value is_common (groups takes_value out)))
  unfolding compile compile_to
  compile-parse_arguments m n {args} {out} e hm hn a h =
      let acc = parse_arguments-Accepted takes_value read cwd m n e hm hn a h in
      let known = language_of_known a.extension acc.extension_known in
      (
        known.0,
        acc.object,
        known.1,
        rw
            (
              ap (get_output (codes "obj")) acc.outputs_eq ∙ get_output-outputs_of acc.object _,
              compile_to,
              known.1,
            )
            (ap
              (λ (ws : List Text).
                run (codes "-c" ∷ codes "-x" ∷ known.0 ∷ codes "-" ∷ codes "-o" ∷ acc.object ∷ ws))
              acc.common_args_eq),
      )

  next_cycle :
      (n : ℕ) (a : Text) (words stack : List Text)
      → starts_with (codes "@") a ≡ true
      → included read cwd a ≡ some (a ∷ words)
      → next read cwd n (a ∷ stack) ≡ out_of_fuel
  unfolding next
  next_cycle zero a words stack s i = refl
  next_cycle (suc n) a words stack s i = rw (s, i) (next_cycle n a words (words ++ stack) s i)

  -- A command line that begins with the name of a file whose first word is that name again is never
  -- parsed: no bounds are enough, since the iterator opens the file for ever.
  pub parse_arguments_cycle :
      (m n : ℕ) (a : Text) (words args : List Text)
      → starts_with (codes "@") a ≡ true
      → included read cwd a ≡ some (a ∷ words)
      → parse_arguments takes_value read cwd m n (a ∷ args) ≡ none
  unfolding parse_arguments parse_loop on_item conclude
  parse_arguments_cycle m zero a words args s i = refl
  parse_arguments_cycle m (suc n) a words args s i = rw (next_cycle m a words args s i)

-- ===== src/Msvc/Prefix.antt =====
-- `msvc::detect_showincludes_prefix`. `decode` stands for the conversion from the local code page.
use sccache.Prelude.{
  Text, codes, starts_with, ℕ, List, [], ◌∷◌, ◌++◌, ◌≡◌, refl, ap, subst, ◌∙◌, Option, none, some,
  Bool, true, not, ◌&&◌, ◌==◌, if◌then◌else◌, reverse, Bool-cases, Option-cases, inl, inr, arith,
}
use sccache.Fs.{Fs}
use sccache.Compiler.CachedCompile.{Output, success}
use sccache.Compiler.Process.{System, Temp, write_temp_file}
use sccache.Msvc.Commands.{exists}
use sccache.Cache.{Bytes}

-- Put a character in front of the first line.
unfoldable pub add_to_line : ℕ → List Text → List Text
add_to_line c [] = (c ∷ []) ∷ []
add_to_line c (l ∷ ls) = (c ∷ l) ∷ ls

-- `str::lines`, without a carriage return before the end of a line.
unfoldable pub lines : Text → List Text
unfolding add_to_line
lines [] = []
lines (c ∷ []) = if c == 10 then [] ∷ [] else (c ∷ []) ∷ []
lines (c ∷ d ∷ cs) =
    let rest = lines (d ∷ cs) in
    if c == 10 then [] ∷ rest else if c == 13 && d == 10 then rest else add_to_line c rest

unfoldable pub ends_with : Text → Text → Bool
ends_with suffix text = starts_with (reverse suffix) (reverse text)

-- The part of a line up to its last space that an existing path follows.
unfoldable pub prefix_before : (Text → Bool) → Text → Option Text
prefix_before there [] = none
prefix_before there (c ∷ cs) = elim (prefix_before there cs) [
  | some prefix ↦ some (c ∷ prefix)
  | none ↦ if c == 32 && there cs then some (c ∷ []) else none
]

unfoldable pub prefix_in : (Text → Bool) → List Text → Option Text
unfolding prefix_before ends_with
prefix_in there [] = none
prefix_in there (l ∷ ls) =
    let rest = prefix_in there ls in
    if not (ends_with (codes "stdio.h") l)
    then rest
    else elim (prefix_before there l) [ some prefix ↦ some prefix | none ↦ rest ]

abbrev pub prefix_args : Text → List Text
prefix_args input =
    codes "-nologo" ∷ codes "-showIncludes" ∷ codes "-c" ∷ codes "-Fonul" ∷ input ∷ []

module _ (system : System) (decode : Bytes → Option Text) where
  unfoldable pub read_prefix : Fs × Option Output → Fs × Option Text
  unfolding prefix_in lines exists
  read_prefix (fs, none) = (fs, none)
  read_prefix (fs, some out) =
      if not (success out.status) then (fs, none) else elim (decode out.stdout) [
        | none ↦ (fs, none)
        | some text ↦ (fs, prefix_in (exists fs) (lines text))
      ]

  unfoldable pub run_on : Fs × Option Temp → Fs × Option Text
  unfolding read_prefix
  run_on (fs, none) = (fs, none)
  run_on (fs, some (dir, input)) =
      let (fs', out) = system.run fs (prefix_args input) none in
      read_prefix (system.drop_temp fs' dir, out)

  unfoldable pub detect_showincludes_prefix : Fs → Fs × Option Text
  unfolding run_on
  detect_showincludes_prefix fs =
      run_on (write_temp_file system fs (codes "test.c") (codes "#include <stdio.h>\n"))

-- The prefix that is found begins a line, and an existing path is the rest of that line.
abbrev pub Splits : (Text → Bool) → Text → Text → Type 0
Splits there line prefix = (path : Text) × (prefix ++ path ≡ line) × (there path ≡ true)

no_prefix : {prefix : Text} → ◌≡◌ {A = Option Text} none (some prefix) → ⊥
no_prefix h = cc

some_inj : {x y : Text} → some x ≡ some y → x ≡ y
some_inj h = cc

prefix_before-Splits :
    (there : Text → Bool) (line prefix : Text)
    → prefix_before there line ≡ some prefix
    → Splits there line prefix
unfolding prefix_before
prefix_before-Splits there [] prefix h = absurd (no_prefix h)
prefix_before-Splits there (c ∷ cs) prefix h = elim (Option-cases (prefix_before there cs)) [
  | inr (shorter, e) ↦
      let (path, joined, found) = prefix_before-Splits there cs shorter e in
      subst (Splits there (c ∷ cs)) (some_inj (rw e at h)) (path, ap (λ t. c ∷ t) joined, found)
  | inl e ↦ elim (Bool-cases (c == 32 && there cs)) [
    | inl here ↦
        subst (Splits there (c ∷ cs)) (some_inj (rw (e, here) at h))
          (cs, refl, ground (arith, here))
    | inr away ↦ absurd (no_prefix (rw (e, away) at h))
  ]
]

-- A line of the output that ends in `stdio.h`, and the prefix of it.
abbrev pub FromLine : (Text → Bool) → List Text → Text → Type 0
FromLine there ls prefix =
    (before : List Text) × (line : Text) × (after : List Text) × (ls ≡ before ++ line ∷ after)
    × (ends_with (codes "stdio.h") line ≡ true)
    × Splits there line prefix

prefix_in-FromLine :
    (there : Text → Bool) (ls : List Text) (prefix : Text)
    → prefix_in there ls ≡ some prefix
    → FromLine there ls prefix
unfolding prefix_in
prefix_in-FromLine there [] prefix h = absurd (no_prefix h)
prefix_in-FromLine there (l ∷ ls) prefix h = elim (Bool-cases (ends_with (codes "stdio.h") l)) [
  | inr other ↦ later (prefix_in-FromLine there ls prefix (rw other at h))
  | inl ends ↦ elim (Option-cases (prefix_before there l)) [
    | inl e ↦ later (prefix_in-FromLine there ls prefix (rw (ends, e) at h))
    | inr (q, e) ↦
        ([], l, ls, refl, ends, prefix_before-Splits there l prefix (e ∙ (rw (ends, e) at h)))
  ]
]
  where
    later : FromLine there ls prefix → FromLine there (l ∷ ls) prefix
    later (before, line, after, e, ends, s) = (l ∷ before, line, after, ap (λ m. l ∷ m) e, ends, s)

-- The outcome of the run: what the compiler wrote, and the lines of it.
pub record Detected (decode : Bytes → Option Text) (answer : Option Output) (fs : Fs)
    (prefix : Text) : Type 0 where
  pub out : Output
  pub answered : answer ≡ some out
  pub ran : success out.status ≡ true
  pub text : Text
  pub decoded : decode out.stdout ≡ some text
  pub from_line : FromLine (exists fs) (lines text) prefix

module _ (system : System) (decode : Bytes → Option Text) where
  read_prefix-Detected :
      (o : Fs × Option Output) (fs : Fs) (prefix : Text)
      → read_prefix system decode o ≡ (fs, some prefix)
      → Detected decode o.1 fs prefix
  unfolding read_prefix
  read_prefix-Detected (f, none) fs prefix h = absurd (no_prefix (ap (λ x. x.1) h))
  read_prefix-Detected (f, some out) fs prefix h = elim (Bool-cases (success out.status)) [
    | inr bad ↦ absurd (no_prefix (ap (λ x. x.1) (rw bad at h)))
    | inl good ↦ elim (Option-cases (decode out.stdout)) [
      | inl e ↦ absurd (no_prefix (ap (λ x. x.1) (rw (good, e) at h)))
      | inr (text, e) ↦
          let g : ◌≡◌ {A = Fs × Option Text} (f, prefix_in (exists f) (lines text))
              (fs, some prefix) =
            rw (good, e) at h in
          record {
            out = out;
            answered = refl;
            ran = good;
            text = text;
            decoded = e;
            from_line =
                subst (λ d. FromLine (exists d) (lines text) prefix) (ap (λ x. x.0) g)
                  (prefix_in-FromLine (exists f) (lines text) prefix (ap (λ x. x.1) g));
          }
    ]
  ]

  run_on-Detected :
      (o : Fs × Option Temp) (fs : Fs) (prefix : Text)
      → run_on system decode o ≡ (fs, some prefix)
      → (f : Fs) × (input : Text) × Detected decode
          (system.run f (prefix_args input) none).1
          fs
          prefix
  unfolding run_on
  run_on-Detected (f, none) fs prefix h = absurd (no_prefix (ap (λ x. x.1) h))
  run_on-Detected (f, some (dir, input)) fs prefix h =
      let (f', answer) = system.run f (prefix_args input) none in
      (f, input, read_prefix-Detected (system.drop_temp f' dir, answer) fs prefix h)

  -- A prefix that is detected begins a line that ends in `stdio.h`, of the decoded output of a
  -- successful run of the compiler, and what follows it there is an existing path.
  pub detect_showincludes_prefix-Detected :
      (fs fs' : Fs) (prefix : Text)
      → detect_showincludes_prefix system decode fs ≡ (fs', some prefix)
      → (f : Fs) × (input : Text) × Detected decode
          (system.run f (prefix_args input) none).1
          fs'
          prefix
  unfolding detect_showincludes_prefix
  detect_showincludes_prefix-Detected fs fs' prefix h =
      run_on-Detected (write_temp_file system fs (codes "test.c") (codes "#include <stdio.h>\n"))
        fs' prefix h

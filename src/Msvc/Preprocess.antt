-- ===== src/Msvc/Preprocess.antt =====
-- `msvc::preprocess`: the preprocessor's run, and the dependency file that is made of what it reports
-- as included. `decode` stands for the conversion from the local code page, `normpath` for the
-- function of that name, and `is_space` for `char::is_whitespace`.
use sccache.Prelude.{
  ℕ, Text, codes, starts_with, contains, List, [], ◌∷◌, ◌++◌, Option, none, some, Bool, true, false,
  ◌&&◌, ◌||◌, ◌==◌, if◌then◌else◌, reverse, ltb, length, drop,
}
use sccache.FilePath.{join}
use sccache.Fs.{Fs, done, fails, write_file}
use sccache.Compiler.{ParsedArguments, get_output}
use sccache.Compiler.CachedCompile.{Output}
use sccache.Compiler.Process.{System}
use sccache.Msvc.Prefix.{lines}
use sccache.Cache.{Bytes}

unfoldable pub preprocess_args : ParsedArguments → List Text
preprocess_args p =
    codes "-E"
    ∷ p.input
    ∷ codes "-nologo"
    ∷ (p.common_args ++ elim p.depfile [ none ↦ [] | some f ↦ codes "-showIncludes" ∷ [] ])

unfoldable pub has_space : Text → Bool
has_space [] = false
has_space (c ∷ cs) = (c == 32) || has_space cs

-- The order of `str`.
unfoldable pub text_ltb : Text → Text → Bool
text_ltb [] [] = false
text_ltb [] (y ∷ ys) = true
text_ltb (x ∷ xs) [] = false
text_ltb (x ∷ xs) (y ∷ ys) = ltb x y || ((x == y) && text_ltb xs ys)

unfoldable pub insert_sorted : Text → List Text → List Text
unfolding text_ltb
insert_sorted d [] = d ∷ []
insert_sorted d (e ∷ es) =
    let rest = insert_sorted d es in if text_ltb d e then d ∷ e ∷ es else e ∷ rest

unfoldable pub sorted : List Text → List Text
unfolding insert_sorted
sorted [] = []
sorted (d ∷ ds) = insert_sorted d (sorted ds)

-- The set of dependencies, in the order in which they were found, and the other lines.
pub record Found : Type 0 where
  pub deps : List Text
  pub others : Text

-- The first rule names the dependencies without a space.
unfoldable pub rule_names : List Text → Text
unfolding has_space
rule_names [] = []
rule_names (d ∷ ds) =
    let rest = rule_names ds in if has_space d then rest else d ++ codes " " ++ rest

-- A rule for each.
unfoldable pub extra_rules : List Text → Text
unfolding has_space
extra_rules [] = []
extra_rules (d ∷ ds) =
    let rest = extra_rules ds in if has_space d then rest else d ++ codes ":\n" ++ rest

abbrev first_words : Text → Text → Text
first_words objfile input = objfile ++ codes ": " ++ input ++ codes " "

unfoldable pub depfile_text : Text → Text → List Text → Text
unfolding rule_names extra_rules sorted
depfile_text objfile input deps =
    first_words objfile input
    ++ rule_names deps
    ++ codes "\n"
    ++ input
    ++ codes ":\n"
    ++ extra_rules (sorted deps)

module _ (system : System) (decode : Bytes → Option Text) (normpath : Text → Text)
    (is_space : ℕ → Bool) where
  unfoldable pub skip_space : Text → Text
  skip_space [] = []
  skip_space (c ∷ cs) = let rest = skip_space cs in if is_space c then rest else c ∷ cs

  unfoldable pub dependency : Text → Text → Text
  unfolding skip_space
  dependency prefix line =
      normpath (reverse (skip_space (reverse (skip_space (drop (length prefix) line)))))

  -- A dependency is found once.
  unfoldable pub add_dep : Text → Found → Found
  add_dep d f = if contains f.deps d then f else record f { deps = f.deps ++ d ∷ [] }

  -- What the loop does with a line of stderr.
  unfoldable pub scan_line : Text → Found → Text → Found
  unfolding dependency add_dep
  scan_line prefix f line =
      if starts_with prefix line
      then add_dep (dependency prefix line) f
      else record f { others = f.others ++ line ++ codes "\n" }

  unfoldable pub scan : Text → Found → List Text → Found
  unfolding scan_line
  scan prefix f [] = f
  scan prefix f (line ∷ ls) = scan prefix (scan_line prefix f line) ls

  abbrev pub nothing_found : Found
  nothing_found = record { deps = []; others = [] }

  unfoldable pub write_depfile : Text → Text → Text → Output → Found → Fs → Fs × Option Output
  unfolding depfile_text
  write_depfile path objfile input out found fs =
      elim (write_file fs path (depfile_text objfile input found.deps)) [
        | fails f ↦ (f, none)
        | done _ f ↦ (f, some (record out { stderr = found.others }))
      ]

  -- The file is made before stderr is decoded.
  unfoldable pub make_depfile : Text → Text → Text → Text → Output → Fs → Fs × Option Output
  unfolding write_depfile scan lines
  make_depfile prefix path objfile input out fs =
      elim (write_file fs path (first_words objfile input)) [
        | fails f ↦ (f, none)
        | done _ f ↦ elim (decode out.stderr) [
          | none ↦ (f, none)
          | some stderr ↦
              write_depfile path objfile input out (scan prefix nothing_found (lines stderr)) f
        ]
      ]

  -- A dependency file is made if one was asked for, and there is an object file.
  unfoldable pub with_depfile :
      Text → Text → Text → Output → Fs → Option Text → Option Text → Fs × Option Output
  unfolding make_depfile join
  with_depfile prefix cwd input out fs none obj = (fs, some out)
  with_depfile prefix cwd input out fs (some depfile) none = (fs, some out)
  with_depfile prefix cwd input out fs (some depfile) (some objfile) =
      make_depfile prefix (join cwd depfile) objfile input out fs

  unfoldable pub after_run : Text → Text → ParsedArguments → Fs × Option Output → Fs × Option Output
  unfolding with_depfile get_output
  after_run prefix cwd p (fs, none) = (fs, none)
  after_run prefix cwd p (fs, some out) =
      with_depfile prefix cwd p.input out fs p.depfile (get_output (codes "obj") p.outputs)

  unfoldable pub preprocess : Text → Text → ParsedArguments → Fs → Fs × Option Output
  unfolding preprocess_args after_run
  preprocess prefix cwd p fs = after_run prefix cwd p (system.run fs (preprocess_args p) none)

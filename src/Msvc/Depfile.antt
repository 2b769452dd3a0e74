-- ===== src/Msvc/Depfile.antt =====
-- What `msvc::preprocess` writes into the dependency file.
use sccache.Prelude.{
  ℕ, Text, codes, contains, List, [], ◌++◌, ◌≡◌, refl, ap, ◌∙◌, subst, Option, none, some, Bool,
  true, ◌↔◌,
}
use sccache.FilePath.{join}
use sccache.Fs.{Fs, File, Quiet, write_file-Quiet, update, update_self}
use sccache.Compiler.{ParsedArguments, get_output}
use sccache.Compiler.CachedCompile.{Output}
use sccache.Compiler.Process.{System}
use sccache.Msvc.Prefix.{lines}
use sccache.Msvc.Preprocess.{
  Found, preprocess_args, sorted, depfile_text, scan, write_depfile, make_depfile, after_run,
  preprocess, with_depfile,
}
use sccache.Cache.{Bytes}
use sccache.Msvc.Deps.{contains-sorted}
use sccache.Msvc.Rules.{
  spaced, rules, Spaceless, Once, keeps, rule_names-keeps, extra_rules-keeps, keeps_iff,
}
use sccache.Msvc.Order.{Ascending, keeps_sorted-Ascending, keeps-Once, sorted-Once}
use sccache.Msvc.Included.{includes, other_lines, scan-deps, scan-others, scan-Once}

module _ (system : System) (decode : Bytes → Option Text) (normpath : Text → Text)
    (is_space : ℕ → Bool) (prefix : Text) where
  -- The scan of all lines.
  abbrev found_in : Text → Found
  found_in stderr =
      scan system decode normpath is_space prefix (record { deps = []; others = [] }) (lines stderr)

  found_in-includes :
      (stderr d : Text)
      → contains (found_in stderr).deps d
        ≡ includes system decode normpath is_space prefix (lines stderr) d
  unfolding contains
  found_in-includes stderr d =
      scan-deps system decode normpath is_space prefix (lines stderr)
        (record { deps = []; others = [] }) d

  abbrev first_files : Fs → Text → Text → Text → Text → Option File
  first_files fs path objfile input =
      update fs.files path
        (some (record { contents = objfile ++ codes ": " ++ input ++ codes " "; mtime = fs.now }))

  abbrev last_file : Fs → Text → Text → List Text → Option File
  last_file fs objfile input deps =
      some (record { contents = depfile_text objfile input deps; mtime = fs.now })

  make_depfile-Quiet :
      (path objfile input stderr : Text) (out : Output) (fs : Fs)
      → decode out.stderr ≡ some stderr
      → Quiet fs
      → make_depfile system decode normpath is_space prefix path objfile input out fs ≡ (
        record fs {
          files =
              update
                (first_files fs path objfile input)
                path
                (last_file fs objfile input (found_in stderr).deps);
        },
        some (record out { stderr = (found_in stderr).others }),
      )
  unfolding make_depfile write_depfile
  make_depfile-Quiet path objfile input stderr out fs s quiet =
      let first = write_file-Quiet fs path (objfile ++ codes ": " ++ input ++ codes " ") quiet in
      let fs' : Fs = record fs { files = first_files fs path objfile input } in
      let second =
        write_file-Quiet fs' path (depfile_text objfile input (found_in stderr).deps) quiet in
      rw (first, make_depfile, s, write_depfile, second) refl

  -- The texts around the names.
  depfile_text-keeps :
      (objfile input : Text) (deps : List Text)
      → depfile_text objfile input deps
        ≡ (objfile ++ codes ": " ++ input ++ codes " ")
          ++ spaced (keeps deps)
          ++ codes "\n"
          ++ input
          ++ codes ":\n"
          ++ rules (keeps (sorted deps))
  unfolding depfile_text
  depfile_text-keeps objfile input deps =
      rw (depfile_text, rule_names-keeps deps, extra_rules-keeps (sorted deps)) refl

  -- A text that a line reports, and that has no space.
  abbrev pub Named : Text → Text → Type 0
  Named stderr d =
      (includes system decode normpath is_space prefix (lines stderr) d ≡ true) × Spaceless d

  keeps-Named :
      (stderr : Text) (ds : List Text) (d : Text)
      → contains ds d ≡ includes system decode normpath is_space prefix (lines stderr) d
      → (contains (keeps ds) d ≡ true) ↔ Named stderr d
  keeps-Named stderr ds d e =
      subst (λ b. (contains (keeps ds) d ≡ true) ↔ ((b ≡ true) × Spaceless d)) e (keeps_iff ds d)

  -- The preprocessor has been run on a fault-free disk, a dependency file was asked for, and what the
  -- compiler wrote to stderr can be decoded: then the result is the compiler's but for the lines of
  -- stderr that report an included file, which are taken out. The dependency file is a rule of the
  -- object file, for the input and for names, each with a space behind it, then an empty rule of the
  -- input, and an empty rule of each of some names, in ascending order. In both places the names are
  -- the files without a space in their names that the lines report, each once.
  pub preprocess-depfile :
      (cwd : Text) (p : ParsedArguments) (fs fs1 : Fs) (out : Output)
      (depfile objfile stderr : Text)
      → system.run fs (preprocess_args p) none ≡ (fs1, some out)
      → p.depfile ≡ some depfile
      → get_output (codes "obj") p.outputs ≡ some objfile
      → decode out.stderr ≡ some stderr
      → Quiet fs1
      → (names listed : List Text) × (files : Text → Option File) × (preprocess system decode
            normpath is_space prefix cwd p fs
          ≡ (
            record fs1 { files = files },
            some (record out {
              stderr = other_lines system decode normpath is_space prefix (lines stderr);
            }),
          ))
        × (files (join cwd depfile)
            ≡ some (record {
              contents =
                  (objfile ++ codes ": " ++ p.input ++ codes " ")
                  ++ spaced names
                  ++ codes "\n"
                  ++ p.input
                  ++ codes ":\n"
                  ++ rules listed;
              mtime = fs1.now;
            }))
        × ((d : Text)
            → ((contains names d ≡ true) ↔ Named stderr d)
              × ((contains listed d ≡ true) ↔ Named stderr d))
        × Once names
        × Once listed
        × Ascending listed
  unfolding preprocess after_run with_depfile
  preprocess-depfile cwd p fs fs1 out depfile objfile stderr e h o s quiet =
      let found = found_in stderr in
      let path = join cwd depfile in
      let made = make_depfile-Quiet path objfile p.input stderr out fs1 s quiet in
      let others : found.others
          ≡ other_lines system decode normpath is_space prefix (lines stderr) =
        scan-others system decode normpath is_space prefix (lines stderr)
          (record { deps = []; others = [] }) in
      let once =
        scan-Once system decode normpath is_space prefix (lines stderr)
          (record { deps = []; others = [] }) tt in
      let files =
        (update (first_files fs1 path objfile p.input) path
          (last_file fs1 objfile p.input found.deps)) in
      (
        keeps found.deps,
        keeps (sorted found.deps),
        files,
        ap (after_run system decode normpath is_space prefix cwd p) e
            ∙ ap
                (λ x.
                  with_depfile system decode normpath is_space prefix cwd p.input out fs1 x
                    (get_output (codes "obj") p.outputs))
                h
            ∙ ap
                (λ x.
                  with_depfile system decode normpath is_space prefix cwd p.input out fs1
                    (some depfile) x)
                o
            ∙ made
            ∙ ap (λ t. (record fs1 { files = files }, some (record out { stderr = t }))) others,
        update_self (first_files fs1 path objfile p.input) path _
            ∙ ap (λ t. some (record { contents = t; mtime = fs1.now }))
                (depfile_text-keeps objfile p.input found.deps),
        λ d. (
          keeps-Named stderr found.deps d (found_in-includes stderr d),
          keeps-Named stderr (sorted found.deps) d
              (contains-sorted found.deps d ∙ found_in-includes stderr d),
        ),
        keeps-Once found.deps once,
        keeps-Once (sorted found.deps) (sorted-Once found.deps once),
        keeps_sorted-Ascending found.deps,
      )

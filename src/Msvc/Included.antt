-- ===== src/Msvc/Included.antt =====
-- What the loop of `msvc::preprocess` over the lines of stderr finds.
use sccache.Prelude.{
  ℕ, Text, text_eq, text_eq_iff, codes, starts_with, contains, List, [], ◌∷◌, ◌++◌, ◌≡◌, refl, sym,
  ap, ◌∙◌, subst, Option, Bool, true, false, ◌&&◌, ◌||◌, if◌then◌else◌, Bool-cases, inl, inr,
  append_assoc, append-nil,
}
use sccache.Compiler.Process.{System}
use sccache.Msvc.Preprocess.{Found, dependency, add_dep, scan_line, scan}
use sccache.Cache.{Bytes}
use sccache.Msvc.Deps.{or_assoc, or_false, contains-append}
use sccache.Msvc.Rules.{Once}
use sccache.Msvc.Order.{append-Once}

module _ (system : System) (decode : Bytes → Option Text) (normpath : Text → Text)
    (is_space : ℕ → Bool) (prefix : Text) where
  -- A line reports the file as included.
  unfoldable pub includes : List Text → Text → Bool
  includes [] d = false
  includes (line ∷ ls) d =
      (starts_with prefix line
        && text_eq (dependency system decode normpath is_space prefix line) d)
      || includes ls d

  -- The lines that report nothing.
  unfoldable pub other_lines : List Text → Text
  other_lines [] = []
  other_lines (line ∷ ls) =
      (if starts_with prefix line then [] else line ++ codes "\n") ++ other_lines ls

  add_dep-contains :
      (e : Text) (f : Found) (d : Text)
      → contains (add_dep system decode normpath is_space e f).deps d
        ≡ (contains f.deps d || text_eq e d)
  unfolding add_dep contains
  add_dep-contains e f d = elim (Bool-cases (contains f.deps e)) [
    | inr new ↦ rw new (
        contains-append f.deps (e ∷ []) d
        ∙ ap (λ b. contains f.deps d || b) (or_false (text_eq e d)))
    | inl old ↦ rw old (elim (Bool-cases (text_eq e d)) [
      | inr other ↦ rw other (sym (or_false (contains f.deps d)))
      | inl same ↦
          let there : contains f.deps d ≡ true =
            subst (λ x. contains f.deps x ≡ true) ((text_eq_iff e d).0 same) old in
          rw there refl
    ])
  ]

  add_dep-others :
      (e : Text) (f : Found) → (add_dep system decode normpath is_space e f).others ≡ f.others
  unfolding add_dep
  add_dep-others e f = elim (Bool-cases (contains f.deps e)) [
    | inl old ↦ rw old refl
    | inr new ↦ rw new refl
  ]

  -- What one line adds.
  unfoldable reported : Text → Text → Bool
  reported line d =
      starts_with prefix line && text_eq (dependency system decode normpath is_space prefix line) d

  unfoldable other_line : Text → Text
  other_line line = if starts_with prefix line then [] else line ++ codes "\n"

  scan_line-deps :
      (f : Found) (line d : Text)
      → contains (scan_line system decode normpath is_space prefix f line).deps d
        ≡ (contains f.deps d || reported line d)
  unfolding scan_line reported
  scan_line-deps f line d = elim (Bool-cases (starts_with prefix line)) [
    | inl reports ↦
        rw reports (add_dep-contains (dependency system decode normpath is_space prefix line) f d)
    | inr other ↦ rw other (sym (or_false (contains f.deps d)))
  ]

  scan_line-others :
      (f : Found) (line : Text)
      → (scan_line system decode normpath is_space prefix f line).others
        ≡ f.others ++ other_line line
  unfolding scan_line other_line
  scan_line-others f line = elim (Bool-cases (starts_with prefix line)) [
    | inl reports ↦ rw reports (
        add_dep-others (dependency system decode normpath is_space prefix line) f
        ∙ sym (append-nil f.others))
    | inr other ↦ rw other (append_assoc f.others line (codes "\n"))
  ]

  pub scan-deps :
      (ls : List Text) (f : Found) (d : Text)
      → contains (scan system decode normpath is_space prefix f ls).deps d
        ≡ (contains f.deps d || includes ls d)
  unfolding scan includes reported
  scan-deps [] f d = sym (or_false (contains f.deps d))
  scan-deps (line ∷ ls) f d =
      scan-deps ls (scan_line system decode normpath is_space prefix f line) d
      ∙ ap (λ b. b || includes ls d) (scan_line-deps f line d)
      ∙ or_assoc (contains f.deps d) (reported line d) (includes ls d)

  pub scan-others :
      (ls : List Text) (f : Found)
      → (scan system decode normpath is_space prefix f ls).others ≡ f.others ++ other_lines ls
  unfolding scan other_lines other_line
  scan-others [] f = sym (append-nil f.others)
  scan-others (line ∷ ls) f =
      scan-others ls (scan_line system decode normpath is_space prefix f line)
      ∙ ap (λ t. t ++ other_lines ls) (scan_line-others f line)
      ∙ append_assoc f.others (other_line line) (other_lines ls)

  add_dep-Once :
      (e : Text) (f : Found) → Once f.deps → Once (add_dep system decode normpath is_space e f).deps
  unfolding add_dep
  add_dep-Once e f h = elim (Bool-cases (contains f.deps e)) [
    | inl old ↦ rw old h
    | inr new ↦ rw new (append-Once f.deps e new h)
  ]

  scan_line-Once :
      (f : Found) (line : Text)
      → Once f.deps
      → Once (scan_line system decode normpath is_space prefix f line).deps
  unfolding scan_line
  scan_line-Once f line h = elim (Bool-cases (starts_with prefix line)) [
    | inl reports ↦
        rw reports (add_dep-Once (dependency system decode normpath is_space prefix line) f h)
    | inr other ↦ rw other h
  ]

  pub scan-Once :
      (ls : List Text) (f : Found)
      → Once f.deps
      → Once (scan system decode normpath is_space prefix f ls).deps
  unfolding scan
  scan-Once [] f h = h
  scan-Once (line ∷ ls) f h =
      scan-Once ls (scan_line system decode normpath is_space prefix f line)
        (scan_line-Once f line h)

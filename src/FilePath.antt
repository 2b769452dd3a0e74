-- ===== src/FilePath.antt =====
-- `std::path` as the program uses it, over Unix paths with no doubled separators and no
-- separator at the end.
pub mod Names
use sccache.Prelude.{
  ℕ, Text, [], ◌∷◌, ◌++◌, ◌≡◌, refl, Option, none, some, Bool, true, false, ◌||◌, if◌then◌else◌,
  ◌==◌, arith, starts_with, drop, length, append-cancel,
}

abbrev pub slash : ℕ
slash = b'/'

unfoldable pub is_absolute : Text → Bool
is_absolute [] = false
is_absolute (c ∷ cs) = c == slash

unfoldable pub ends_in_slash : Text → Bool
ends_in_slash [] = false
ends_in_slash (c ∷ []) = c == slash
ends_in_slash (c ∷ d ∷ cs) = ends_in_slash (d ∷ cs)

-- `root` with the separator that `Path::join` puts behind it.
unfoldable pub with_separator : Text → Text
unfolding ends_in_slash
with_separator [] = []
with_separator (c ∷ cs) = if ends_in_slash (c ∷ cs) then c ∷ cs else (c ∷ cs) ++ slash ∷ []

-- `Path::join`: an absolute path replaces the root.
unfoldable pub join : Text → Text → Text
unfolding is_absolute with_separator
join root rel = if is_absolute rel then rel else with_separator root ++ rel

-- `Path::strip_prefix`
unfoldable pub strip_prefix : Text → Text → Option Text
unfolding starts_with with_separator
strip_prefix path root =
    let base = with_separator root in
    if starts_with base path then some (drop (length base) path) else none

has_slash : Text → Bool
has_slash [] = false
has_slash (c ∷ cs) = c == slash || has_slash cs

before_last_slash : Text → Text
before_last_slash [] = []
before_last_slash (c ∷ cs) =
    let rest = before_last_slash cs in if has_slash cs then c ∷ rest else []

parent_of : Text → Text → Option Text
parent_of [] dir = none
parent_of (c ∷ []) dir = if c == slash then none else some []
parent_of (c ∷ d ∷ cs) [] = if c == slash then some (slash ∷ []) else some []
parent_of (c ∷ d ∷ cs) (e ∷ es) = some (e ∷ es)

-- `Path::parent`, of a path with no separator at its end.
unfoldable pub parent : Text → Option Text
unfolding has_slash before_last_slash parent_of
parent path = parent_of path (before_last_slash path)

-- Two relative keys under one root have two paths.
pub join-injective :
    (root a b : Text)
    → is_absolute a ≡ false
    → is_absolute b ≡ false
    → join root a ≡ join root b
    → a ≡ b
unfolding join
join-injective root a b ha hb e = append-cancel (with_separator root) (rw (ha, hb) at e)

starts_with-append : (p q : Text) → starts_with p (p ++ q) ≡ true
unfolding starts_with
starts_with-append [] q = refl
starts_with-append (x ∷ p) q = ground (arith, starts_with-append p q)

drop-append : (p q : Text) → drop (length p) (p ++ q) ≡ q
drop-append [] q = refl
drop-append (x ∷ p) q = drop-append p q

-- The key is what remains of the joined path.
pub strip_prefix-join :
    (root rel : Text) → is_absolute rel ≡ false → strip_prefix (join root rel) root ≡ some rel
unfolding strip_prefix join
strip_prefix-join root rel h =
    rw (h, starts_with-append (with_separator root) rel, drop-append (with_separator root) rel)

-- ===== src/Gcc/Expand.antt =====
-- `ExpandIncludeFile`: the iterator that replaces an `@file` argument by the words of the file.
use sccache.Prelude.{
  ℕ, zero, suc, Text, codes, starts_with, List, [], ◌∷◌, ◌++◌, Option, none, some, Bool, ◌||◌, ◌&&◌,
  if◌then◌else◌, ◌==◌, leb, drop,
}
use sccache.FilePath.{join}
use sccache.FilePath.Names.{has_mark}

-- `char::is_whitespace`
unfoldable pub is_whitespace : ℕ → Bool
is_whitespace c =
    c == 32
    || (leb 9 c && leb c 13)
    || c == 0x85
    || c == 0xa0
    || c == 0x1680
    || (leb 0x2000 c && leb c 0x200a)
    || c == 0x2028
    || c == 0x2029
    || c == 0x202f
    || c == 0x205f
    || c == 0x3000

-- Put a character in front of the first word.
add_to_word : ℕ → List Text → List Text
add_to_word c [] = (c ∷ []) ∷ []
add_to_word c (w ∷ ws) = (c ∷ w) ∷ ws

-- The pieces between white space, empty ones too.
pieces : Text → List Text
unfolding is_whitespace add_to_word
pieces [] = [] ∷ []
pieces (c ∷ cs) = let rest = pieces cs in if is_whitespace c then [] ∷ rest else add_to_word c rest

drop_empty : List Text → List Text
drop_empty [] = []
drop_empty ([] ∷ ws) = drop_empty ws
drop_empty ((c ∷ w) ∷ ws) = (c ∷ w) ∷ drop_empty ws

-- `str::split_whitespace`
unfoldable pub split_whitespace : Text → List Text
unfolding pieces drop_empty
split_whitespace text = drop_empty (pieces text)

-- What a call of the iterator's `next` gives: an argument with what remains, the end, or nothing
-- within the fuel.
pub data Next : Type 0 where
  item : Text → List Text → Next
  ended : Next
  out_of_fuel : Next

-- The files that can be read as UTF-8, by path.
module _ (read : Text → Option Text) (cwd : Text) where
  -- The words of the file that `arg` names; `none` if the argument is to be taken literally.
  unfoldable pub included : Text → Option (List Text)
  unfolding split_whitespace has_mark
  included arg = elim (read (join cwd (drop 1 arg))) [
    | none ↦ none
    | some contents ↦
        if has_mark b'"' contents || has_mark b'\'' contents
        then none
        else some (split_whitespace contents)
  ]

  -- The stack of the source, its top first.
  unfoldable pub next : ℕ → List Text → Next
  next zero stack = out_of_fuel
  next (suc fuel) [] = ended
  next (suc fuel) (arg ∷ stack) =
      let literal = item arg stack in
      if starts_with (codes "@") arg
      then elim (included arg) [ none ↦ literal | some words ↦ next fuel (words ++ stack) ]
      else literal

-- ===== src/FilePath/Names.antt =====
-- `Path::file_name`, `extension` and `with_extension`, over Unix paths with no separator at the end.
use sccache.Prelude.{
  ℕ, Text, text_eq, codes, [], ◌∷◌, ◌++◌, Option, none, some, Bool, false, ◌||◌, if◌then◌else◌,
  ◌==◌,
}

-- Does `mark` stand in the text?
unfoldable pub has_mark : ℕ → Text → Bool
has_mark mark [] = false
has_mark mark (c ∷ cs) = c == mark || has_mark mark cs

-- What stands behind the last `mark`: the whole text, if there is none.
unfoldable pub after_last : ℕ → Text → Text
unfolding has_mark
after_last mark [] = []
after_last mark (c ∷ cs) =
    let rest = after_last mark cs in
    if has_mark mark cs then rest else if c == mark then cs else c ∷ cs

-- What stands before the last `mark`: nothing, if there is none.
unfoldable pub before_last : ℕ → Text → Text
unfolding has_mark
before_last mark [] = []
before_last mark (c ∷ cs) =
    let rest = before_last mark cs in if has_mark mark cs then c ∷ rest else []

unfoldable pub file_name : Text → Option Text
unfolding after_last
file_name path =
    let name = after_last b'/' path in
    if text_eq name [] || text_eq name (codes "..") then none else some name

-- The file name's part behind its last dot, unless the dot is its first character.
unfoldable pub name_extension : Text → Option Text
unfolding after_last before_last has_mark
name_extension [] = none
name_extension (c ∷ cs) = if has_mark b'.' cs then some (after_last b'.' cs) else none

unfoldable pub extension_of : Option Text → Option Text
unfolding name_extension
extension_of none = none
extension_of (some name) = name_extension name

unfoldable pub extension : Text → Option Text
unfolding extension_of file_name
extension path = extension_of (file_name path)

unfoldable pub replace_extension : Option Text → Option Text → Text → Text → Text
unfolding before_last
replace_extension none e path ext = path
replace_extension (some name) none path ext = path ++ b'.' ∷ ext
replace_extension (some name) (some old) path ext = before_last b'.' path ++ b'.' ∷ ext

-- `Path::with_extension`, for an extension that is not empty.
unfoldable pub with_extension : Text → Text → Text
unfolding replace_extension extension file_name
with_extension path ext = replace_extension (file_name path) (extension path) path ext

-- ===== src/Sanitize.antt =====
-- internal/server/sanitize.go: the names that a client sends become components of paths.
pub mod Laws
mod Tests
use n_backup.Prelude.{
  ℕ, Bool, true, false, ◌&&◌, ◌||◌, List, [], ◌∷◌, length, Option, none, some, ltb, ◌==◌,
  if◌then◌else◌,
}

-- What validatePathComponent says of a name that it refuses.
pub data NameError : Type 0 where
  is_empty : NameError
  too_long : NameError
  has_separator : NameError
  has_null_byte : NameError
  is_traversal : NameError
  starts_with_dot : NameError

abbrev pub max_path_component_length : ℕ
max_path_component_length = 255

-- strings.ContainsAny(name, "/\\")
unfoldable pub contains_separator : List ℕ → Bool
contains_separator [] = false
contains_separator (b ∷ name) = let rest = contains_separator name in (b == 47) || (b == 92) || rest

-- strings.ContainsRune(name, 0)
unfoldable pub contains_null : List ℕ → Bool
contains_null [] = false
contains_null (b ∷ name) = let rest = contains_null name in (b == 0) || rest

-- `name == "." || name == ".." || strings.HasPrefix(name, "..")`
abbrev pub starts_traversal : List ℕ → Bool
starts_traversal [] = false
starts_traversal (b ∷ []) = b == 46
starts_traversal (b ∷ d ∷ name) = (b == 46) && (d == 46)

-- `strings.HasPrefix(name, ".")`
abbrev pub starts_dot : List ℕ → Bool
starts_dot [] = false
starts_dot (b ∷ name) = b == 46

-- validatePathComponent; `none` is no error.
unfoldable pub validate_path_component : List ℕ → Option NameError
validate_path_component name =
    if length name == 0
    then some is_empty
    else if ltb max_path_component_length (length name)
    then some too_long
    else if contains_separator name
    then some has_separator
    else if contains_null name
    then some has_null_byte
    else if starts_traversal name
    then some is_traversal
    else if starts_dot name
    then some starts_with_dot
    else none

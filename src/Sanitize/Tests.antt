-- ===== src/Sanitize/Tests.antt =====
-- Names that pass and names that do not.
use n_backup.Prelude.{ℕ, ◌≡◌, ◌↔◌, refl, List, [], ◌∷◌, none, some}
use n_backup.Sanitize.{
  validate_path_component, contains_separator, contains_null, is_traversal, starts_with_dot,
  has_separator,
}
use n_backup.Sanitize.Laws.{IsComponent, validate_path_component_lem}

-- web
abbrev web : List ℕ
web = 119 ∷ 101 ∷ 98 ∷ []

names :
    (validate_path_component web ≡ none)
    × (validate_path_component (46 ∷ 46 ∷ []) ≡ some is_traversal)
    × (validate_path_component (46 ∷ 98 ∷ []) ≡ some starts_with_dot)
    × (validate_path_component (97 ∷ 47 ∷ 98 ∷ []) ≡ some has_separator)
unfolding validate_path_component contains_separator contains_null
names = (refl, refl, refl, refl)

validate_path_component_lem_example : (validate_path_component web ≡ none) ↔ IsComponent web
validate_path_component_lem_example = validate_path_component_lem web

-- ===== src/Sanitize/Laws.antt =====
-- Which names pass.
use n_backup.Prelude.{
  ℕ, ◌≤◌, ◌<◌, ◌≡◌, ◌≢◌, ◌↔◌, refl, arith, false, List, [], ◌∷◌, length, none, All,
}
use n_backup.Sanitize.{
  contains_separator, contains_null, starts_traversal, starts_dot, validate_path_component,
}

-- Neither a separator nor NUL.
abbrev pub IsPlain : ℕ → Type 0
IsPlain b = (b ≢ 47) × (b ≢ 92) × (b ≢ 0)

-- A name that is one component of a path below its directory.
abbrev pub IsComponent : List ℕ → Type 0
IsComponent [] = ⊥
IsComponent (b ∷ name) = (b ≢ 46) × All IsPlain (b ∷ name) × (length (b ∷ name) ≤ 255)

clean_lem :
    (name : List ℕ)
    → contains_separator name ≡ false
    → contains_null name ≡ false
    → All IsPlain name
unfolding contains_separator contains_null
clean_lem [] e f = tt
clean_lem (b ∷ name) e f =
    ((ground arith, ground arith, ground arith), clean_lem name (ground arith) (ground arith))

plain_lem :
    (name : List ℕ)
    → All IsPlain name
    → (contains_separator name ≡ false) × (contains_null name ≡ false)
unfolding contains_separator contains_null
plain_lem [] a = (refl, refl)
plain_lem (b ∷ name) ((s, t, z), a) = let (e, f) = plain_lem name a in (ground arith, ground arith)

accepted_lem :
    (name : List ℕ)
    → validate_path_component name ≡ none
    → (length name ≤ 255)
      × (contains_separator name ≡ false)
      × (contains_null name ≡ false)
      × (starts_dot name ≡ false)
unfolding validate_path_component
accepted_lem name e = (ground arith, ground arith, ground arith, ground arith)

accepts_lem :
    (name : List ℕ)
    → 0 < length name
    → length name ≤ 255
    → contains_separator name ≡ false
    → contains_null name ≡ false
    → starts_traversal name ≡ false
    → starts_dot name ≡ false
    → validate_path_component name ≡ none
unfolding validate_path_component
accepts_lem name some_byte short separator null traversal dot = ground arith

no_traversal : (b : ℕ) (name : List ℕ) → b ≢ 46 → starts_traversal (b ∷ name) ≡ false
no_traversal b [] h = ground arith
no_traversal b (d ∷ name) h = ground arith

-- validatePathComponent accepts exactly the names of 1 to 255 bytes with neither separators nor NUL
-- that do not start with a dot.
pub validate_path_component_lem :
    (name : List ℕ) → (validate_path_component name ≡ none) ↔ IsComponent name
validate_path_component_lem [] =
    (λ e. unfold validate_path_component in absurd (ground arith), λ a. absurd a)
validate_path_component_lem (b ∷ name) = (
  λ e.
      let (short, separator, null, dot) = accepted_lem (b ∷ name) e in
      (ground arith, clean_lem (b ∷ name) separator null, short),
  λ (first, plain, short).
      let (separator, null) = plain_lem (b ∷ name) plain in
      accepts_lem (b ∷ name) (omega arith) short separator null (no_traversal b name first)
        (ground arith),
)

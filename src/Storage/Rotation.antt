-- ===== src/Storage/Rotation.antt =====
-- Which backups a rotation removes.
use n_backup.Prelude.{
  ℕ, ◌+◌, ◌-◌, ◌≤◌, ◌<◌, ◌≡◌, refl, sym, ap, ◌∙◌, arith, min, Bool, true, false, List, [], ◌∷◌,
  ◌++◌, length, take, drop, ltb, ltb→lt, ltb→ge, ◌⊎◌, inl, inr, All, Bool-cases, length-drop,
  take-append-drop,
}
use n_backup.Storage.{Name, name_leb, sort_names, Entry, backups_of, list_rotation_candidates}
use n_backup.Storage.Sorting.{
  IsSorted, sort_names-IsSorted, count_of, count_of-append, count_of-sort_names, length-sort_names,
}

-- The names that are listed and those that are kept make up the backups; as many as allowed are kept,
-- and none that is listed comes behind one that is kept.
pub record IsRotation (es : List Entry) (max : ℕ) (listed : List Name) : Type 0 where
  pub kept : List Name
  pub all : (n : Name) → count_of n listed + count_of n kept ≡ count_of n (backups_of es)
  pub number : 0 < max → length kept ≡ min max (length (backups_of es))
  pub oldest : All (λ n. All (λ m. name_leb n m ≡ true) kept) listed
  pub disabled : max ≡ 0 → listed ≡ []

All-append_right :
    (n : Name) (xs ys : List Name)
    → All (λ m. name_leb n m ≡ true) (xs ++ ys)
    → All (λ m. name_leb n m ≡ true) ys
All-append_right n [] ys a = a
All-append_right n (x ∷ xs) ys (h, a) = All-append_right n xs ys a

IsSorted-append :
    (xs ys : List Name) → IsSorted (xs ++ ys) → All (λ n. All (λ m. name_leb n m ≡ true) ys) xs
IsSorted-append [] ys s = tt
IsSorted-append (x ∷ xs) ys (a, s) = (All-append_right x xs ys a, IsSorted-append xs ys s)

candidates_none :
    (es : List Entry) (max : ℕ)
    → (max ≡ 0) ⊎ (length (sort_names (backups_of es)) ≤ max)
    → list_rotation_candidates es max ≡ []
unfolding list_rotation_candidates
candidates_none es max h = ground arith

candidates_some :
    (es : List Entry) (max : ℕ)
    → 0 < max
    → max < length (sort_names (backups_of es))
    → list_rotation_candidates es max
      ≡ take (length (sort_names (backups_of es)) - max) (sort_names (backups_of es))
unfolding list_rotation_candidates
candidates_some es max pos lt = ground arith

pub list_rotation_candidates-IsRotation :
    (es : List Entry) (max : ℕ) → IsRotation es max (list_rotation_candidates es max)
list_rotation_candidates-IsRotation es max =
    let backups = sort_names (backups_of es) in
    let len : length backups ≡ length (backups_of es) = length-sort_names (backups_of es) in
    elim (Bool-cases (ltb max (length backups))) [
      | inl more ↦ elim (Bool-cases (ltb 0 max)) [
        | inl pos ↦
            let k = length backups - max in
            let whole = take-append-drop k backups in
            let lt : max < length backups = ltb→lt max (length backups) more in
            rw (candidates_some es max (ltb→lt 0 max pos) lt) (record {
              kept = drop k backups;
              all = λ n.
                  sym (count_of-append n (take k backups) (drop k backups))
                  ∙ (ap (count_of n) whole ∙ count_of-sort_names n (backups_of es));
              number = λ p. omega (arith, length-drop k backups, len);
              oldest =
                  IsSorted-append (take k backups) (drop k backups)
                    (rw whole (sort_names-IsSorted (backups_of es)));
              disabled = λ e. absurd (omega (arith, ltb→lt 0 max pos));
            })
        | inr zero_max ↦
            nothing (inl (omega (arith, ltb→ge 0 max zero_max)))
              (λ p. absurd (omega (arith, ltb→ge 0 max zero_max)))
      ]
      | inr fits ↦
          let le : length backups ≤ max = ltb→ge max (length backups) fits in
          nothing (inr le) (λ p. omega (arith, len))
    ]
  where
    nothing :
        (max ≡ 0) ⊎ (length (sort_names (backups_of es)) ≤ max)
        → (0 < max → length (backups_of es) ≡ min max (length (backups_of es)))
        → IsRotation es max (list_rotation_candidates es max)
    nothing h number = rw (candidates_none es max h) (record {
      kept = backups_of es;
      all = λ n. unfold count_of in omega arith;
      number = number;
      oldest = tt;
      disabled = λ e. refl;
    })

-- What Rotate removes, in front of what it leaves of the names that are listed for removal.
pub record IsRotated (es : List Entry) (max : ℕ) (r : List Name × Bool) : Type 0 where
  pub left : List Name
  pub rotation : IsRotation es max (r.0 ++ left)
  pub failed : r.1 ≡ false → left ≡ []

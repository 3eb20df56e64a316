-- ===== src/Storage/Sorting.antt =====
-- Sorting by name.
use n_backup.Prelude.{
  ℕ, suc, ◌+◌, ◌≡◌, refl, ap, ◌∙◌, arith, true, false, List, [], ◌∷◌, ◌++◌, length, if◌then◌else◌,
  inl, inr, All, Bool-cases,
}
use n_backup.Protocol.Wire.{bytes_eq}
use n_backup.Storage.{Name, name_leb, insert_name, sort_names}

name_leb_total : (x y : Name) → name_leb x y ≡ false → name_leb y x ≡ true
unfolding name_leb
name_leb_total [] y e = absurd (ground arith)
name_leb_total (b ∷ x) [] e = refl
name_leb_total (b ∷ x) (c ∷ y) e = ground (arith, name_leb_total x y)

pub name_leb_trans :
    (x y z : Name) → name_leb x y ≡ true → name_leb y z ≡ true → name_leb x z ≡ true
unfolding name_leb
name_leb_trans [] y z e f = refl
name_leb_trans (b ∷ x) [] z e f = absurd (ground arith)
name_leb_trans (b ∷ x) (c ∷ y) [] e f = absurd (ground arith)
name_leb_trans (b ∷ x) (c ∷ y) (d ∷ z) e f = ground (arith, name_leb_trans x y z)

-- Each name is at most every later one.
abbrev pub IsSorted : List Name → Type 0
IsSorted [] = Unit
IsSorted (n ∷ ns) = All (λ m. name_leb n m ≡ true) ns × IsSorted ns

All-map :
    (n m : Name) (ns : List Name)
    → name_leb n m ≡ true
    → All (λ k. name_leb m k ≡ true) ns
    → All (λ k. name_leb n k ≡ true) ns
All-map n m [] le a = tt
All-map n m (k ∷ ns) le (h, a) = (name_leb_trans n m k le h, All-map n m ns le a)

insert_head :
    (n m : Name) (ms : List Name) → name_leb n m ≡ true → insert_name n (m ∷ ms) ≡ n ∷ (m ∷ ms)
unfolding insert_name
insert_head n m ms e = ground arith

insert_tail :
    (n m : Name) (ms : List Name)
    → name_leb n m ≡ false
    → insert_name n (m ∷ ms) ≡ m ∷ insert_name n ms
unfolding insert_name
insert_tail n m ms e = ground arith

All-insert_name :
    (k n : Name) (ms : List Name)
    → name_leb k n ≡ true
    → All (λ m. name_leb k m ≡ true) ms
    → All (λ m. name_leb k m ≡ true) (insert_name n ms)
All-insert_name k n [] le a = unfold insert_name in (le, tt)
All-insert_name k n (m ∷ ms) le (h, a) = elim (Bool-cases (name_leb n m)) [
  | inl first ↦ rw (insert_head n m ms first) (le, (h, a))
  | inr later ↦ rw (insert_tail n m ms later) (h, All-insert_name k n ms le a)
]

insert_name-IsSorted : (n : Name) (ms : List Name) → IsSorted ms → IsSorted (insert_name n ms)
insert_name-IsSorted n [] s = unfold insert_name in (tt, tt)
insert_name-IsSorted n (m ∷ ms) (a, s) = elim (Bool-cases (name_leb n m)) [
  | inl first ↦ rw (insert_head n m ms first) ((first, All-map n m ms first a), (a, s))
  | inr later ↦
      rw (insert_tail n m ms later)
        (All-insert_name m n ms (name_leb_total n m later) a, insert_name-IsSorted n ms s)
]

pub sort_names-IsSorted : (ns : List Name) → IsSorted (sort_names ns)
unfolding sort_names
sort_names-IsSorted [] = tt
sort_names-IsSorted (n ∷ ns) = insert_name-IsSorted n (sort_names ns) (sort_names-IsSorted ns)

-- How often a name stands in a list.
unfoldable pub count_of : Name → List Name → ℕ
count_of n [] = 0
count_of n (m ∷ ms) = (if bytes_eq m n then 1 else 0) + count_of n ms

pub count_of-append :
    (n : Name) (xs ys : List Name) → count_of n (xs ++ ys) ≡ count_of n xs + count_of n ys
unfolding count_of
count_of-append n [] ys = omega arith
count_of-append n (x ∷ xs) ys = omega (arith, count_of-append n xs ys)

count_of_cons :
    (k n : Name) (ns : List Name)
    → count_of k (n ∷ ns) ≡ (if bytes_eq n k then 1 else 0) + count_of k ns
unfolding count_of
count_of_cons k n ns = refl

count_of-insert_name :
    (k n : Name) (ms : List Name) → count_of k (insert_name n ms) ≡ count_of k (n ∷ ms)
count_of-insert_name k n [] = unfold insert_name in refl
count_of-insert_name k n (m ∷ ms) = elim (Bool-cases (name_leb n m)) [
  | inl first ↦ ap (count_of k) (insert_head n m ms first)
  | inr later ↦
      ap (count_of k) (insert_tail n m ms later)
      ∙ omega (
        arith,
        count_of_cons k m (insert_name n ms),
        count_of-insert_name k n ms,
        count_of_cons k n ms,
        count_of_cons k n (m ∷ ms),
        count_of_cons k m ms,
      )
]

pub count_of-sort_names : (k : Name) (ns : List Name) → count_of k (sort_names ns) ≡ count_of k ns
unfolding sort_names
count_of-sort_names k [] = refl
count_of-sort_names k (n ∷ ns) =
    count_of-insert_name k n (sort_names ns)
    ∙ omega
        (arith, count_of_cons k n (sort_names ns), count_of_cons k n ns, count_of-sort_names k ns)

length-insert_name : (n : Name) (ms : List Name) → length (insert_name n ms) ≡ suc (length ms)
length-insert_name n [] = unfold insert_name in refl
length-insert_name n (m ∷ ms) = elim (Bool-cases (name_leb n m)) [
  | inl first ↦ ap length (insert_head n m ms first)
  | inr later ↦ ap length (insert_tail n m ms later) ∙ ap suc (length-insert_name n ms)
]

pub length-sort_names : (ns : List Name) → length (sort_names ns) ≡ length ns
unfolding sort_names
length-sort_names [] = refl
length-sort_names (n ∷ ns) = length-insert_name n (sort_names ns) ∙ ap suc (length-sort_names ns)

-- ===== src/Prelude/Slices.antt =====
-- Pieces of lists: `xs[o : o + n]` is `take n (drop o xs)`.
use Prim.Native.Nat.{ℕ, zero, suc, ◌+◌, ◌≤◌}
use mathlib.Core.Path.{◌≡◌, refl, ap}
use mathlib.Core.List.{List, [], ◌∷◌, ◌++◌}
use native.Mathlib.Omega.{arith}
use n_backup.Prelude.Lists.{length, take, drop}

module _ {ℓ} {A : Type ℓ} where
  pub take-nil : (n : ℕ) → take {A = A} n [] ≡ []
  take-nil zero = refl
  take-nil (suc n) = refl

  pub drop-nil : (n : ℕ) → drop {A = A} n [] ≡ []
  drop-nil zero = refl
  drop-nil (suc n) = refl

  pub drop-drop : (a b c : ℕ) (xs : List A) → c ≡ a + b → drop b (drop a xs) ≡ drop c xs
  drop-drop zero b c xs e = ap (λ (n : ℕ). drop n xs) (omega arith)
  drop-drop (suc a) b zero xs e = absurd (omega arith)
  drop-drop (suc a) b (suc c) [] e = drop-nil b
  drop-drop (suc a) b (suc c) (x ∷ xs) e = drop-drop a b c xs (omega arith)

  -- Two neighbouring pieces.
  pub take-append_take :
      (a b c : ℕ) (xs : List A) → c ≡ a + b → take a xs ++ take b (drop a xs) ≡ take c xs
  take-append_take zero b c xs e = ap (λ (n : ℕ). take n xs) (omega arith)
  take-append_take (suc a) b zero xs e = absurd (omega arith)
  take-append_take (suc a) b (suc c) [] e = take-nil b
  take-append_take (suc a) b (suc c) (x ∷ xs) e =
      ap (◌∷◌ x) (take-append_take a b c xs (omega arith))

  -- A piece of a prefix is that piece of the whole.
  pub take-drop_of_take :
      (m o h : ℕ) (xs : List A) → o + m ≤ h → take m (drop o (take h xs)) ≡ take m (drop o xs)
  take-drop_of_take zero o h xs le = refl
  take-drop_of_take (suc m) o zero xs le = absurd (omega arith)
  take-drop_of_take (suc m) o (suc h) [] le = refl
  take-drop_of_take (suc m) zero (suc h) (x ∷ xs) le =
      ap (◌∷◌ x) (take-drop_of_take m zero h xs (omega arith))
  take-drop_of_take (suc m) (suc o) (suc h) (x ∷ xs) le =
      take-drop_of_take (suc m) o h xs (omega arith)

  -- Two ways to split one list: the shorter front part begins the longer.
  pub append-split :
      (xs ys zs ws : List A)
      → xs ++ ys ≡ zs ++ ws
      → length xs ≤ length zs
      → (zs ≡ xs ++ drop (length xs) zs) × (ys ≡ drop (length xs) zs ++ ws)
  append-split [] ys zs ws e le = (refl, e)
  append-split (x ∷ xs) ys [] ws e le = absurd (omega arith)
  append-split (x ∷ xs) ys (z ∷ zs) ws e le =
      let head : x ≡ z = cc in
      let tail : xs ++ ys ≡ zs ++ ws = cc in
      let (front, back) = append-split xs ys zs ws tail (omega arith) in (cc, back)

-- ===== src/Prelude/Copy.antt =====
-- Go's `copy(dst[i:], src)`: overwrites from index `i` on, and stops at the end of either slice.
use Prim.Native.Nat.{ℕ, zero, suc, ◌+◌, ◌≤◌, ◌<◌}
use mathlib.Core.Path.{◌≡◌, refl, ap}
use mathlib.Core.Logic.{◌⊎◌, inr}
use mathlib.Core.List.{List, [], ◌∷◌}
use native.Mathlib.Omega.{arith}
use n_backup.Prelude.Lists.{length, get_elem?}

module _ {ℓ} {A : Type ℓ} where
  unfoldable pub copy_at : List A → ℕ → List A → List A
  copy_at [] i src = []
  copy_at (x ∷ xs) (suc i) src = x ∷ copy_at xs i src
  copy_at (x ∷ xs) zero [] = x ∷ xs
  copy_at (x ∷ xs) zero (y ∷ ys) = y ∷ copy_at xs zero ys

  pub length-copy_at : (xs : List A) (i : ℕ) (src : List A) → length (copy_at xs i src) ≡ length xs
  unfolding copy_at
  length-copy_at [] i src = refl
  length-copy_at (x ∷ xs) (suc i) src = ap suc (length-copy_at xs i src)
  length-copy_at (x ∷ xs) zero [] = refl
  length-copy_at (x ∷ xs) zero (y ∷ ys) = ap suc (length-copy_at xs zero ys)

  -- Inside the written range the source is read back.
  pub get_elem?-copy_at_in :
      (xs : List A) (i : ℕ) (src : List A) (j k : ℕ)
      → k ≡ i + j
      → j < length src
      → k < length xs
      → get_elem? (copy_at xs i src) k ≡ get_elem? src j
  unfolding copy_at
  get_elem?-copy_at_in [] i src j k e hj hk = absurd (omega arith)
  get_elem?-copy_at_in (x ∷ xs) (suc i) src j zero e hj hk = absurd (omega arith)
  get_elem?-copy_at_in (x ∷ xs) (suc i) src j (suc k) e hj hk =
      get_elem?-copy_at_in xs i src j k (omega arith) hj (omega arith)
  get_elem?-copy_at_in (x ∷ xs) zero [] j k e hj hk = absurd (omega arith)
  get_elem?-copy_at_in (x ∷ xs) zero (y ∷ ys) zero zero e hj hk = refl
  get_elem?-copy_at_in (x ∷ xs) zero (y ∷ ys) zero (suc k) e hj hk = absurd (omega arith)
  get_elem?-copy_at_in (x ∷ xs) zero (y ∷ ys) (suc j) zero e hj hk = absurd (omega arith)
  get_elem?-copy_at_in (x ∷ xs) zero (y ∷ ys) (suc j) (suc k) e hj hk =
      get_elem?-copy_at_in xs zero ys j k (omega arith) (omega arith) (omega arith)

  -- Outside of it nothing changes.
  pub get_elem?-copy_at_out :
      (xs : List A) (i : ℕ) (src : List A) (k : ℕ)
      → (k < i) ⊎ (i + length src ≤ k)
      → get_elem? (copy_at xs i src) k ≡ get_elem? xs k
  unfolding copy_at
  get_elem?-copy_at_out [] i src k h = refl
  get_elem?-copy_at_out (x ∷ xs) (suc i) src zero h = refl
  get_elem?-copy_at_out (x ∷ xs) (suc i) src (suc k) h =
      get_elem?-copy_at_out xs i src k (omega arith)
  get_elem?-copy_at_out (x ∷ xs) zero [] k h = refl
  get_elem?-copy_at_out (x ∷ xs) zero (y ∷ ys) zero h = absurd (omega arith)
  get_elem?-copy_at_out (x ∷ xs) zero (y ∷ ys) (suc k) h =
      get_elem?-copy_at_out xs zero ys k (inr (omega arith))

-- ===== src/RingBuffer/Mod.antt =====
-- Positions in the circular buffer: a window no longer than the buffer meets no index twice.
use n_backup.Prelude.{ℕ, ◌+◌, ◌-◌, ◌%◌, ◌≤◌, ◌<◌, ◌≡◌, ◌≢◌, ◌⊎◌, ap, ◌∙◌, sym, arith}
use native.Mathlib.Nat.{mod-add-mod, mod-lt, mod-eq_of_lt, mod-eq-sub-mod}

-- The index `i` places behind `h`, without and with a wrap.
pub mod-add_near : (s h i : ℕ) → h % s + i < s → (h + i) % s ≡ h % s + i
mod-add_near s h i fits = sym (mod-add-mod h s i) ∙ mod-eq_of_lt fits

pub mod-add_wrap : (s h i : ℕ) → s ≤ h % s + i → h % s + i < s + s → (h + i) % s ≡ h % s + i - s
mod-add_wrap s h i over fits =
    sym (mod-add-mod h s i) ∙ mod-eq-sub-mod over ∙ mod-eq_of_lt (omega arith)

-- The index of an offset `d` further on, for `d` up to the size.
pub mod-add_cases :
    (s k d : ℕ)
    → 0 < s
    → d ≤ s
    → (((k + d) % s ≡ k % s + d) × (k % s + d < s)) ⊎ (((k + d) % s + s ≡ k % s + d) × (k % s < s))
mod-add_cases s k d pos near =
    grind (arith, mod-lt k {m = s}, mod-add_near s k d, mod-add_wrap s k d)

-- Two offsets closer than the size never share an index.
pub mod-ne-mod : (s a d : ℕ) → 0 < d → d < s → (a + d) % s ≢ a % s
mod-ne-mod s a d pos near e =
    grind (arith, mod-lt a {m = s}, mod-add_near s a d, mod-add_wrap s a d)

pub mod-sub_cases :
    (s k h : ℕ)
    → 0 < s
    → k ≤ h
    → h ≤ k + s
    → ((h % s + k ≡ k % s + h) × (k % s + h < s + k)) ⊎ ((h % s + s + k ≡ k % s + h) × (k % s < s))
mod-sub_cases s k h pos le near =
    let e : h ≡ k + (h - k) = omega arith in
    let e' : h % s ≡ (k + (h - k)) % s = ap (λ (t : ℕ). t % s) e in
    ground (arith, e', mod-add_cases s k (h - k))

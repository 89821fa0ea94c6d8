-- ===== src/Bit32/Words.antt =====
-- Lua/src/lbitlib.cpp: the word operations by arithmetic and by digits.

use addons_terraria_tshock.Common.{
  ℕ, zero, suc, ◌-◌, ◌%◌, ◌^◌, ◌≤◌, ◌<◌, ◌==◌, eq_of_==, ◌≡◌, refl, ap, ◌∙◌, true, arith,
}
use addons_terraria_tshock.Common.Bits.{
  bit, bit_and-mask, bit-mod_below, all_below, all_below_sound,
}
use addons_terraria_tshock.Bit32.{trim, mask}

pub trim_lem : (x : ℕ) → trim x ≡ x % 2 ^ 32
unfolding trim
trim_lem x = bit_and-mask 32 x

pub trim-lt : (x : ℕ) → trim x < 2 ^ 32
trim-lt x = omega (arith, trim_lem x)

pub trim_word : (x : ℕ) → x < 2 ^ 32 → trim x ≡ x
trim_word x h = omega (arith, trim_lem x)

pub bit-trim : (k x : ℕ) → k < 32 → bit k (trim x) ≡ bit k x
bit-trim k x h = ap (bit k) (trim_lem x) ∙ bit-mod_below 32 k x h

mask_table : all_below 32 (λ w. mask (suc w) == 2 ^ suc w - 1) ≡ true
unfolding all_below mask
mask_table = refl

-- `mask(w)` is w ones.
pub mask_lem : (w : ℕ) → 1 ≤ w → w ≤ 32 → mask w ≡ 2 ^ w - 1
mask_lem zero p q = absurd (omega arith)
mask_lem (suc w) p q = eq_of_== _ _ (all_below_sound 32 _ w mask_table (omega arith))

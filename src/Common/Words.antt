-- ===== src/Common/Words.antt =====
-- The operations of C on words of 32 bits, and their digits.
use addons_terraria_tshock.Common.Bits.{
  bit, bit-div, bit-mul_below, bit-mul_above, bit-mod_below, bit-ones_below, bit-ones_above,
}
use Prim.Native.Nat.{ℕ, ◌+◌, ◌-◌, ◌*◌, ◌/◌, ◌%◌, ◌^◌, ◌≤◌, ◌<◌}
use mathlib.Core.Path.{◌≡◌, sym, ap, ◌∙◌}
use native.Mathlib.Omega.{arith}

abbrev pub allones : ℕ
allones = 2 ^ 32 - 1

-- `~x`, `x << n` and `x >> n`; the shifts are defined for n < 32.
abbrev pub complement : ℕ → ℕ
complement x = allones - x

abbrev pub shl : ℕ → ℕ → ℕ
shl x n = x * 2 ^ n % 2 ^ 32

abbrev pub shr : ℕ → ℕ → ℕ
shr x n = x / 2 ^ n

pub bit-shl_below : (k r n : ℕ) → k < 32 → k < n → bit k (shl r n) ≡ 0
bit-shl_below k r n p q = bit-mod_below 32 k (r * 2 ^ n) p ∙ bit-mul_below n k r q

pub bit-shl_above : (k r n : ℕ) → n + k < 32 → bit (n + k) (shl r n) ≡ bit k r
bit-shl_above k r n p = bit-mod_below 32 (n + k) (r * 2 ^ n) p ∙ bit-mul_above n k r

pub bit-shl : (k r n : ℕ) → k < 32 → n ≤ k → bit k (shl r n) ≡ bit (k - n) r
bit-shl k r n p q =
    ap (λ (m : ℕ). bit m (shl r n)) (sym split) ∙ bit-shl_above (k - n) r n (omega (arith, split))
  where
    split : n + (k - n) ≡ k
    split = omega arith

pub bit-allones_above : (k n : ℕ) → 32 ≤ k + n → bit k (shr allones n) ≡ 0
bit-allones_above k n h = bit-div k n allones ∙ bit-ones_above 32 (k + n) h

pub bit-allones_below : (k n : ℕ) → k + n < 32 → bit k (shr allones n) ≡ 1
bit-allones_below k n h = bit-div k n allones ∙ bit-ones_below 32 (k + n) h

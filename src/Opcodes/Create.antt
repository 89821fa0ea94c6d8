-- ===== src/Opcodes/Create.antt =====
-- Lua/include/lopcodes.h: instructions that are put together from their arguments, the signed
-- argument, and the operands that are a register or a constant.
use addons_terraria_tshock.Common.{
  ℕ, suc, ◌+◌, ◌-◌, ◌%◌, ◌^◌, ◌≤◌, ◌<◌, max, bit_or, true, false, ◌≡◌, refl, ◌∙◌, arith, ◌==◌, ◌&&◌,
  not, Bool,
}
use addons_terraria_tshock.Common.Bits.{
  bit, bit-bit_or, bit_of_lt, eq_of_bits, bit_at, all_below, all_below_sound,
}
use addons_terraria_tshock.Common.Int.{ℤ, pos, negsuc}
use addons_terraria_tshock.Common.Words.{shl, bit-shl, bit-shl_below}
use addons_terraria_tshock.Opcodes.{
  op, a, b, c, bx, size, position, getarg, create_abc, maxarg_sbx, sub_int, getarg_sbx, setarg_sbx,
  isk, indexk, rkask, maxindexrk,
}
use addons_terraria_tshock.Opcodes.Fields.{getarg-lt, bit-getarg, getarg-setarg}

-- A value of n digits that is moved to position p has no digit from p + n on.
part_above : (k p n v : ℕ) → k < 32 → v < 2 ^ n → p + n ≤ k → bit k (shl v p) ≡ 0
part_above k p n v l h q = bit-shl k v p l (omega arith) ∙ bit_of_lt n (k - p) v h (omega arith)

part_inside : (k p v : ℕ) → k + p < 32 → bit (k + p) (shl v p) ≡ bit k v
part_inside k p v l = bit-shl (k + p) v p l (omega arith) ∙ bit_at (k + p - p) k v (omega arith)

module _ (o x y z : ℕ) (ho : o < 2 ^ 6) (hx : x < 2 ^ 8) (hy : y < 2 ^ 9) (hz : z < 2 ^ 9) where
  abc_digit :
      (k : ℕ)
      → bit k (create_abc o x y z)
        ≡ max (max (max (bit k (shl o 0)) (bit k (shl x 6))) (bit k (shl y 23))) (bit k (shl z 14))
  unfolding create_abc position
  abc_digit k = omega (
    arith,
    bit-bit_or k (bit_or (bit_or (shl o 0) (shl x 6)) (shl y 23)) (shl z 14),
    bit-bit_or k (bit_or (shl o 0) (shl x 6)) (shl y 23),
    bit-bit_or k (shl o 0) (shl x 6),
  )

  abc_op : (k : ℕ) → k < 6 → bit (k + 0) (create_abc o x y z) ≡ bit k o
  abc_op k l = omega (
    arith,
    abc_digit (k + 0),
    part_inside k 0 o (omega arith),
    bit-shl_below (k + 0) x 6 (omega arith) (omega arith),
    bit-shl_below (k + 0) y 23 (omega arith) (omega arith),
    bit-shl_below (k + 0) z 14 (omega arith) (omega arith),
  )

  abc_a : (k : ℕ) → k < 8 → bit (k + 6) (create_abc o x y z) ≡ bit k x
  abc_a k l = omega (
    arith,
    abc_digit (k + 6),
    part_inside k 6 x (omega arith),
    part_above (k + 6) 0 6 o (omega arith) ho (omega arith),
    bit-shl_below (k + 6) y 23 (omega arith) (omega arith),
    bit-shl_below (k + 6) z 14 (omega arith) (omega arith),
  )

  abc_b : (k : ℕ) → k < 9 → bit (k + 23) (create_abc o x y z) ≡ bit k y
  abc_b k l = omega (
    arith,
    abc_digit (k + 23),
    part_inside k 23 y (omega arith),
    part_above (k + 23) 0 6 o (omega arith) ho (omega arith),
    part_above (k + 23) 6 8 x (omega arith) hx (omega arith),
    part_above (k + 23) 14 9 z (omega arith) hz (omega arith),
  )

  abc_c : (k : ℕ) → k < 9 → bit (k + 14) (create_abc o x y z) ≡ bit k z
  abc_c k l = omega (
    arith,
    abc_digit (k + 14),
    part_inside k 14 z (omega arith),
    part_above (k + 14) 0 6 o (omega arith) ho (omega arith),
    part_above (k + 14) 6 8 x (omega arith) hx (omega arith),
    bit-shl_below (k + 14) y 23 (omega arith) (omega arith),
  )

-- An instruction that is put together from an opcode and three arguments that fit their fields has
-- these four in its fields.
pub create_abc_lem :
    (o x y z : ℕ)
    → o < 2 ^ 6
    → x < 2 ^ 8
    → y < 2 ^ 9
    → z < 2 ^ 9
    → (getarg (create_abc o x y z) op ≡ o)
      × (getarg (create_abc o x y z) a ≡ x)
      × (getarg (create_abc o x y z) b ≡ y)
      × (getarg (create_abc o x y z) c ≡ z)
unfolding size position
create_abc_lem o x y z ho hx hy hz = (
  eq_of_bits 6 _ _ (getarg-lt i op) ho
      (λ k l. bit-getarg k i op l ∙ abc_op o x y z ho hx hy hz k l),
  eq_of_bits 8 _ _ (getarg-lt i a) hx (λ k l. bit-getarg k i a l ∙ abc_a o x y z ho hx hy hz k l),
  eq_of_bits 9 _ _ (getarg-lt i b) hy (λ k l. bit-getarg k i b l ∙ abc_b o x y z ho hx hy hz k l),
  eq_of_bits 9 _ _ (getarg-lt i c) hz (λ k l. bit-getarg k i c l ∙ abc_c o x y z ho hx hy hz k l),
)
  where
    i : ℕ
    i = create_abc o x y z

max_lem : maxarg_sbx ≡ 2 ^ 17 - 1
unfolding maxarg_sbx
max_lem = refl

sub_int_lem : (x n : ℕ) → x ≡ n + maxarg_sbx → sub_int x maxarg_sbx ≡ pos n
unfolding sub_int
sub_int_lem x n h = ground (arith, max_lem)

sub_int_neg : (x n : ℕ) → x + suc n ≡ maxarg_sbx → sub_int x maxarg_sbx ≡ negsuc n
unfolding sub_int
sub_int_neg x n h = ground (arith, max_lem)

-- The signed arguments that fit the field.
abbrev pub IsSigned : ℤ → Type 0
IsSigned (pos n) = n ≤ 2 ^ 17
IsSigned (negsuc n) = n + 1 < 2 ^ 17

-- A signed argument from -131071 to 131072 is read back from the field.
pub getarg_sbx-setarg_sbx : (i : ℕ) (z : ℤ) → IsSigned z → getarg_sbx (setarg_sbx i z) ≡ z
unfolding getarg_sbx setarg_sbx size
getarg_sbx-setarg_sbx i (pos n) h =
    sub_int_lem _ n (getarg-setarg i (n + maxarg_sbx) bx (omega (arith, max_lem)))
getarg_sbx-setarg_sbx i (negsuc n) h = sub_int_neg _ n (
    omega (
      arith,
      max_lem,
      getarg-setarg i ((2 ^ 32 + maxarg_sbx - suc n) % 2 ^ 32) bx (omega (arith, max_lem)),
    ))

rk_test : ℕ → Bool
rk_test x = isk (rkask x) && (indexk (rkask x) == x && not (isk x))

rk_table : all_below 256 rk_test ≡ true
unfolding all_below rk_test isk rkask indexk
rk_table = refl

-- The index of a constant, at most MAXINDEXRK, is told from a register when it is marked, and is
-- read back.
pub rkask_lem :
    (x : ℕ) → x ≤ maxindexrk → (isk (rkask x) ≡ true) × (indexk (rkask x) ≡ x) × (isk x ≡ false)
unfolding rk_test maxindexrk
rkask_lem x h = ground (arith, all_below_sound 256 rk_test x rk_table (omega arith))

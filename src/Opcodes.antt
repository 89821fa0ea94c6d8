-- ===== src/Opcodes.antt =====
-- Lua/include/lopcodes.h: the fields of an instruction, a word of 32 bits. A macro that assigns to
-- the instruction returns the new one.
pub mod Fields
pub mod Create
pub mod Modes
mod Examples
use addons_terraria_tshock.Common.{
  ℕ, suc, leb, if◌then◌else◌, ◌+◌, ◌-◌, ◌*◌, ◌/◌, ◌%◌, ◌^◌, bit_and, bit_or, Bool, not, ◌==◌, List,
  [], ◌∷◌,
}
use addons_terraria_tshock.Common.Words.{allones, complement, shl, shr}
use addons_terraria_tshock.Common.Int.{ℤ, pos, negsuc}

-- The arguments of an instruction: GETARG_A, GETARG_B and so on, and GET_OPCODE.
pub data Field : Type 0 where
  op a b c bx ax : Field

-- SIZE_OP, SIZE_A, ... and POS_OP, POS_A, ...
unfoldable pub size : Field → ℕ
size op = 6
size a = 8
size b = 9
size c = 9
size bx = 18
size ax = 26

abbrev pos_a : ℕ
pos_a = 0 + 6

abbrev pos_c : ℕ
pos_c = pos_a + 8

abbrev pos_b : ℕ
pos_b = pos_c + 9

unfoldable pub position : Field → ℕ
position op = 0
position a = pos_a
position b = pos_b
position c = pos_c
position bx = pos_c
position ax = pos_a

unfoldable pub mask1 : ℕ → ℕ → ℕ
mask1 n p = shl (complement (shl allones n)) p

unfoldable pub mask0 : ℕ → ℕ → ℕ
unfolding mask1
mask0 n p = complement (mask1 n p)

-- `getarg` and `setarg` at a field.
unfoldable pub getarg : ℕ → Field → ℕ
unfolding mask1 size position
getarg i f = bit_and (shr i (position f)) (mask1 (size f) 0)

unfoldable pub setarg : ℕ → ℕ → Field → ℕ
unfolding mask0 mask1 size position
setarg i v f =
    bit_or (bit_and i (mask0 (size f) (position f)))
      (bit_and (shl v (position f)) (mask1 (size f) (position f)))

unfoldable pub maxarg : Field → ℕ
unfolding size
maxarg f = shl 1 (size f) - 1

unfoldable pub maxarg_sbx : ℕ
unfolding maxarg
maxarg_sbx = shr (maxarg bx) 1

-- `(int)x - y` for arguments that are ints.
unfoldable pub sub_int : ℕ → ℕ → ℤ
sub_int x y = if leb y x then pos (x - y) else negsuc (y - suc x)

unfoldable pub getarg_sbx : ℕ → ℤ
unfolding getarg maxarg_sbx sub_int
getarg_sbx i = sub_int (getarg i bx) maxarg_sbx

-- The sum is cast to `unsigned int`.
unfoldable pub setarg_sbx : ℕ → ℤ → ℕ
unfolding setarg maxarg_sbx
setarg_sbx i (pos n) = setarg i (n + maxarg_sbx) bx
setarg_sbx i (negsuc n) = setarg i ((2 ^ 32 + maxarg_sbx - suc n) % 2 ^ 32) bx

unfoldable pub create_abc : ℕ → ℕ → ℕ → ℕ → ℕ
unfolding position
create_abc o x y z =
    bit_or (bit_or (bit_or (shl o (position op)) (shl x (position a))) (shl y (position b)))
      (shl z (position c))

unfoldable pub create_abx : ℕ → ℕ → ℕ → ℕ
unfolding position
create_abx o x y = bit_or (bit_or (shl o (position op)) (shl x (position a))) (shl y (position bx))

unfoldable pub create_ax : ℕ → ℕ → ℕ
unfolding position
create_ax o x = bit_or (shl o (position op)) (shl x (position ax))

-- The operands that are a register or a constant.
unfoldable pub bitrk : ℕ
unfolding size
bitrk = shl 1 (size b - 1)

unfoldable pub isk : ℕ → Bool
unfolding bitrk
isk x = not (bit_and x bitrk == 0)

unfoldable pub indexk : ℕ → ℕ
unfolding bitrk
indexk r = bit_and r (complement bitrk)

unfoldable pub rkask : ℕ → ℕ
unfolding bitrk
rkask x = bit_or x bitrk

unfoldable pub maxindexrk : ℕ
unfolding bitrk
maxindexrk = bitrk - 1

-- ===== src/Opcodes/Modes.antt =====
-- Lua/src/lopcodes.cpp and Lua/include/lopcodes.h: the table of the modes of the instructions, one
-- byte for each opcode.
use addons_terraria_tshock.Common.{
  ℕ, ◌*◌, ◌/◌, ◌^◌, ◌<◌, bit_and, bit_or, Bool, true, false, ◌≢◌, not, ◌&&◌, ◌||◌, ◌⊎◌, ◌==◌, List,
  [], ◌∷◌, get_or, ◌≡◌, refl, arith,
}
use addons_terraria_tshock.Common.Bits.{all_below, all_below_sound}

pub data OpMode : Type 0 where
  iabc iabx iasbx iax : OpMode

-- OpArgN, OpArgU, OpArgR and OpArgK.
pub data OpArgMask : Type 0 where
  not_used used reg constant : OpArgMask

-- The values of the enums.
unfoldable pub mode_value : OpMode → ℕ
mode_value iabc = 0
mode_value iabx = 1
mode_value iasbx = 2
mode_value iax = 3

unfoldable pub mask_value : OpArgMask → ℕ
mask_value not_used = 0
mask_value used = 1
mask_value reg = 2
mask_value constant = 3

unfoldable pub opmode : ℕ → ℕ → OpArgMask → OpArgMask → OpMode → ℕ
unfolding mode_value mask_value
opmode t a b c m =
    bit_or
      (bit_or (bit_or (bit_or (t * 2 ^ 7) (a * 2 ^ 6)) (mask_value b * 2 ^ 4))
        (mask_value c * 2 ^ 2))
      (mode_value m)

-- `luaP_opmodes`.
unfoldable pub opmodes : List ℕ
unfolding opmode
opmodes =
    opmode 0 1 reg not_used iabc
    ∷  -- OP_MOVE
        opmode 0 1 constant not_used iabx
    ∷  -- OP_LOADK
        opmode 0 1 not_used not_used iabx
    ∷  -- OP_LOADKX
        opmode 0 1 used used iabc
    ∷  -- OP_LOADBOOL
        opmode 0 1 used not_used iabc
    ∷  -- OP_LOADNIL
        opmode 0 1 used not_used iabc
    ∷  -- OP_GETUPVAL
        opmode 0 1 used constant iabc
    ∷  -- OP_GETTABUP
        opmode 0 1 reg constant iabc
    ∷  -- OP_GETTABLE
        opmode 0 0 constant constant iabc
    ∷  -- OP_SETTABUP
        opmode 0 0 used not_used iabc
    ∷  -- OP_SETUPVAL
        opmode 0 0 constant constant iabc
    ∷  -- OP_SETTABLE
        opmode 0 1 used used iabc
    ∷  -- OP_NEWTABLE
        opmode 0 1 reg constant iabc
    ∷  -- OP_SELF
        opmode 0 1 constant constant iabc
    ∷  -- OP_ADD
        opmode 0 1 constant constant iabc
    ∷  -- OP_SUB
        opmode 0 1 constant constant iabc
    ∷  -- OP_MUL
        opmode 0 1 constant constant iabc
    ∷  -- OP_DIV
        opmode 0 1 constant constant iabc
    ∷  -- OP_MOD
        opmode 0 1 constant constant iabc
    ∷  -- OP_POW
        opmode 0 1 reg not_used iabc
    ∷  -- OP_UNM
        opmode 0 1 reg not_used iabc
    ∷  -- OP_NOT
        opmode 0 1 reg not_used iabc
    ∷  -- OP_LEN
        opmode 0 1 reg reg iabc
    ∷  -- OP_CONCAT
        opmode 0 0 reg not_used iasbx
    ∷  -- OP_JMP
        opmode 1 0 constant constant iabc
    ∷  -- OP_EQ
        opmode 1 0 constant constant iabc
    ∷  -- OP_LT
        opmode 1 0 constant constant iabc
    ∷  -- OP_LE
        opmode 1 0 not_used used iabc
    ∷  -- OP_TEST
        opmode 1 1 reg used iabc
    ∷  -- OP_TESTSET
        opmode 0 1 used used iabc
    ∷  -- OP_CALL
        opmode 0 1 used used iabc
    ∷  -- OP_TAILCALL
        opmode 0 0 used not_used iabc
    ∷  -- OP_RETURN
        opmode 0 1 reg not_used iasbx
    ∷  -- OP_FORLOOP
        opmode 0 1 reg not_used iasbx
    ∷  -- OP_FORPREP
        opmode 0 0 not_used used iabc
    ∷  -- OP_TFORCALL
        opmode 0 1 reg not_used iasbx
    ∷  -- OP_TFORLOOP
        opmode 0 0 used used iabc
    ∷  -- OP_SETLIST
        opmode 0 1 used not_used iabx
    ∷  -- OP_CLOSURE
        opmode 0 1 used not_used iabc
    ∷  -- OP_VARARG
        opmode 0 0 used used iax
    ∷  -- OP_EXTRAARG
        []

abbrev pub num_opcodes : ℕ
num_opcodes = 40

unfoldable pub get_op_mode : ℕ → ℕ
unfolding opmodes
get_op_mode m = bit_and (get_or opmodes m 0) 3

unfoldable pub get_b_mode : ℕ → ℕ
unfolding opmodes
get_b_mode m = bit_and (get_or opmodes m 0 / 2 ^ 4) 3

unfoldable pub get_c_mode : ℕ → ℕ
unfolding opmodes
get_c_mode m = bit_and (get_or opmodes m 0 / 2 ^ 2) 3

unfoldable pub test_a_mode : ℕ → Bool
unfolding opmodes
test_a_mode m = not (bit_and (get_or opmodes m 0) (2 ^ 6) == 0)

unfoldable pub test_t_mode : ℕ → Bool
unfolding opmodes
test_t_mode m = not (bit_and (get_or opmodes m 0) (2 ^ 7) == 0)

-- What lcode.cpp asserts and relies on, of one opcode.
modes_test : ℕ → Bool
modes_test n =
    (not (get_op_mode n == mode_value iabx || get_op_mode n == mode_value iasbx)
      || get_c_mode n == mask_value not_used)
    && (not (test_t_mode n) || get_op_mode n == mode_value iabc)

modes_table : all_below num_opcodes modes_test ≡ true
unfolding all_below modes_test get_op_mode get_c_mode test_t_mode
modes_table = refl

-- In the table, an instruction of the formats ABx and AsBx has no argument C, and an instruction that
-- tests is of the format ABC.
pub modes_lem :
    (n : ℕ)
    → n < num_opcodes
    → (get_c_mode n ≡ mask_value not_used
        ⊎ (get_op_mode n ≢ mode_value iabx) × (get_op_mode n ≢ mode_value iasbx))
      × (test_t_mode n ≡ false ⊎ get_op_mode n ≡ mode_value iabc)
unfolding modes_test mode_value mask_value
modes_lem n h = ground (arith, all_below_sound num_opcodes modes_test n modes_table h)

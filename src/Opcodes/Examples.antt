-- ===== src/Opcodes/Examples.antt =====
-- Lua/include/lopcodes.h and Lua/src/lopcodes.cpp: runs of the macros, and their theorems at concrete
-- instructions.
use addons_terraria_tshock.Common.{◌≡◌, inl, refl, arith}
use addons_terraria_tshock.Opcodes.{
  op, a, b, c, bx, size, position, getarg, setarg, create_abc, create_abx, create_ax,
}
use addons_terraria_tshock.Opcodes.Fields.{getarg-setarg, getarg-setarg_other}
use addons_terraria_tshock.Opcodes.Create.{create_abc_lem}

-- LOADK 3 1000, and EXTRAARG 77.
create_abx_run : (getarg (create_abx 1 3 1000) bx ≡ 1000) × (create_ax 39 77 ≡ 4967)
unfolding create_abx create_ax getarg
create_abx_run = (refl, refl)

getarg-setarg_example : getarg (setarg 0xffffffff 5 b) b ≡ 5
unfolding size
getarg-setarg_example = getarg-setarg 0xffffffff 5 b (omega arith)

getarg-setarg_other_example : getarg (setarg 0x12345678 5 b) c ≡ getarg 0x12345678 c
unfolding size position
getarg-setarg_other_example = getarg-setarg_other 0x12345678 5 b c (inl (omega arith))

-- GETTABLE 1 2 300.
create_abc_lem_example :
    (getarg (create_abc 7 1 2 300) op ≡ 7)
    × (getarg (create_abc 7 1 2 300) a ≡ 1)
    × (getarg (create_abc 7 1 2 300) b ≡ 2)
    × (getarg (create_abc 7 1 2 300) c ≡ 300)
create_abc_lem_example =
    create_abc_lem 7 1 2 300 (omega arith) (omega arith) (omega arith) (omega arith)

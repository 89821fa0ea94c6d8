-- ===== src/Chunk/Fits.antt =====
-- Lua/include/lobject.h: values that fit their types in C.
use addons_terraria_tshock.Common.{ℕ, suc, ◌-◌, ◌/◌, ◌^◌, ◌<◌, ◌≤◌, Option, none, some, length}
use addons_terraria_tshock.Common.Int.{ℤ, pos, negsuc}
use addons_terraria_tshock.Chunk.{Bytes, Constant, nil, boolean, number, string, Upvaldesc, LocVar}

-- The numbers that `LoadInt` accepts.
abbrev pub IsNat : ℤ → Type 0
IsNat (pos n) = n < 2 ^ 31
IsNat (negsuc n) = ⊥

-- A size that `luaM_newvector` accepts, for elements of e bytes.
abbrev pub IsSize : ℕ → ℕ → Type 0
IsSize e n = suc n ≤ (2 ^ 32 - 3) / e

-- A string whose size with the zero is a size_t.
abbrev pub IsString : Option Bytes → Type 0
IsString none = Unit
IsString (some s) = suc (length s) < 2 ^ 32

abbrev pub IsConstant : Constant → Type 0
IsConstant nil = Unit
IsConstant (boolean (pos n)) = n < 2 ^ 7
IsConstant (boolean (negsuc n)) = n < 2 ^ 7
IsConstant (number n) = n < 2 ^ 64
IsConstant (string s) = suc (length s) < 2 ^ 32

abbrev pub IsUpvalue : Upvaldesc → Type 0
IsUpvalue u = IsString u.name × (u.instack < 2 ^ 8) × (u.idx < 2 ^ 8)

abbrev pub IsLocVar : LocVar → Type 0
IsLocVar v = IsString v.varname × IsNat v.startpc × IsNat v.endpc

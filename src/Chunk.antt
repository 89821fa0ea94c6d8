-- ===== src/Chunk.antt =====
-- Lua/src/ldump.cpp, Lua/src/lundump.cpp, Lua/include/lundump.h and the prototypes of
-- Lua/include/lobject.h: the data that a precompiled chunk holds, and its header.
pub mod Dump
pub mod Loader
pub mod Load
pub mod Undump
pub mod Reads
pub mod Fits
pub mod Parts
pub mod Debug
pub mod Shape
pub mod RoundTrip
pub mod Binary
pub mod Writing
pub mod Loading
pub mod Header
pub mod Forward
pub mod Fuel
pub mod Overrun
mod Examples
use addons_terraria_tshock.Common.{ℕ, suc, ◌+◌, ◌*◌, Option, List, [], ◌∷◌, ◌++◌, length}
use addons_terraria_tshock.Common.Int.{ℤ}

-- A `TString`: its bytes, without the zero behind them. NULL is `none`.
abbrev pub Bytes : Type 0
Bytes = List ℕ

-- A constant of a function. A number is its 64 bits, and a boolean the int of its value.
pub data Constant : Type 0 where
  nil : Constant
  boolean : ℤ → Constant
  number : ℕ → Constant
  string : Bytes → Constant

pub record Upvaldesc : Type 0 where
  pub name : Option Bytes
  pub instack : ℕ
  pub idx : ℕ

pub record LocVar : Type 0 where
  pub varname : Option Bytes
  pub startpc : ℤ
  pub endpc : ℤ

-- The fields of a `Proto` but for the functions inside it. The sizes are the lengths of the lists, and
-- an instruction is its word of 32 bits.
pub record Body : Type 0 where
  pub linedefined : ℤ
  pub lastlinedefined : ℤ
  pub numparams : ℕ
  pub is_vararg : ℕ
  pub maxstacksize : ℕ
  pub code : List ℕ
  pub k : List Constant
  pub upvalues : List Upvaldesc
  pub source : Option Bytes
  pub lineinfo : List ℤ
  pub locvars : List LocVar

infixr 20 ◌then◌
mutual
  pub data Proto : Type 0 where
    proto : Body → Protos → Proto

  pub data Protos : Type 0 where
    last : Protos
    ◌then◌ : Proto → Protos → Protos

abbrev pub sizep : Protos → ℕ
sizep last = 0
sizep (f then fs) = suc (sizep fs)

-- LUA_SIGNATURE and LUAC_TAIL.
abbrev pub signature : Bytes
signature = 0x1b ∷ 0x4c ∷ 0x75 ∷ 0x61 ∷ []

abbrev pub tail : Bytes
tail = 0x19 ∷ 0x93 ∷ 0x0d ∷ 0x0a ∷ 0x1a ∷ 0x0a ∷ []

-- LUAC_HEADERSIZE.
abbrev pub headersize : ℕ
headersize = length signature + 2 + 6 + length tail

-- VERSION.
abbrev pub version : ℕ
version = 5 * 16 + 2

-- The version, the format, the low byte of 1, the sizes of int, size_t, Instruction and lua_Number, and
-- whether the latter is integral.
unfoldable pub lua_u_header : Bytes
lua_u_header = signature ++ (version ∷ 0 ∷ 1 ∷ 4 ∷ 4 ∷ 4 ∷ 8 ∷ 0 ∷ tail)

-- ===== src/Struct/Host.antt =====
-- What Lua/include/lstruct/struct.h uses of the Lua API and of C's floating point: the checks of the
-- auxiliary library, the pushes, and the casts between `lua_Number` and the integers.
use addons_terraria_tshock.Common.{
  ℕ, ◌^◌, ◌<◌, ◌≡◌, Bool, true, false, if◌then◌else◌, Option, some, List, length,
}
use addons_terraria_tshock.Common.Int.{ℤ, pos, negsuc, to_unsigned, IsInt}

pub record Host : Type 1 where
  pub Value : Type 0
  pub Number : Type 0
  -- `luaL_checknumber` (and `lua_isnumber`) and `luaL_checklstring`; `none` is a wrong type.
  pub checknumber : Value → Option Number
  pub checklstring : Value → Option (List ℕ)
  pub pushnumber : Number → Value
  pub pushlstring : List ℕ → Value
  -- `n < 0`, `(Inttype)n`, `(Uinttype)n` and `(size_t)n`.
  pub is_negative : Number → Bool
  pub to_inttype : Number → ℤ
  pub to_uinttype : Number → ℕ
  pub to_size : Number → ℕ
  -- `(lua_Number)l` for an `Inttype` and a `Uinttype`.
  pub of_inttype : ℤ → Number
  pub of_uinttype : ℕ → Number
  -- The bytes of `(float)n` and of a double in memory, and back.
  pub float_bytes : Number → List ℕ
  pub double_bytes : Number → List ℕ
  pub of_float_bytes : List ℕ → Number
  pub of_double_bytes : List ℕ → Number

-- What is documented of them: a pushed value is read back, an integer of 32 bits is a double and is
-- cast back to itself, a float has four bytes and a double eight.
pub record Laws (h : Host) : Type 0 where
  pub checknumber-pushnumber : (n : h.Number) → h.checknumber (h.pushnumber n) ≡ some n
  pub checklstring-pushlstring : (s : List ℕ) → h.checklstring (h.pushlstring s) ≡ some s
  pub is_negative-pos : (n : ℕ) → h.is_negative (h.of_inttype (pos n)) ≡ false
  pub is_negative-negsuc : (n : ℕ) → h.is_negative (h.of_inttype (negsuc n)) ≡ true
  pub to_inttype-of_inttype : (z : ℤ) → IsInt z → h.to_inttype (h.of_inttype z) ≡ z
  pub of_uinttype-pos : (n : ℕ) → h.of_uinttype n ≡ h.of_inttype (pos n)
  pub to_uinttype-of_uinttype : (n : ℕ) → n < 2 ^ 32 → h.to_uinttype (h.of_uinttype n) ≡ n
  pub length-float_bytes : (n : h.Number) → length (h.float_bytes n) ≡ 4
  pub length-double_bytes : (n : h.Number) → length (h.double_bytes n) ≡ 8

-- The cast of `putinteger`.
abbrev pub to_word : (h : Host) → h.Number → ℕ
to_word h n = if h.is_negative n then to_unsigned (h.to_inttype n) else h.to_uinttype n

-- ===== src/Chunk/Load.antt =====
-- Lua/src/lundump.cpp: a precompiled chunk is loaded from a stream, whose first byte has been read.
use addons_terraria_tshock.Common.{
  ℕ, zero, suc, ◌-◌, ◌*◌, ◌/◌, ◌^◌, ◌==◌, ltb, if◌then◌else◌, Option, none, some, List, [], ◌∷◌,
  map, take,
}
use addons_terraria_tshock.Common.Int.{ℤ, pos, negsuc, to_signed}
use addons_terraria_tshock.Common.Memory.{from_bytes, from_array}
use addons_terraria_tshock.Common.Outcome.{
  Outcome, ok, err, fault, no_fuel, error, chunk_error, error_if, defined,
}
use addons_terraria_tshock.Common.Outcome
use addons_terraria_tshock.Zio.{Zio, lua_z_read}
use addons_terraria_tshock.Chunk.{
  Bytes, Constant, nil, boolean, number, string, Upvaldesc, LocVar, ◌then◌,
}
use addons_terraria_tshock.Chunk.Loader.{Loader, ◌>>=◌, ◌>>◌, pure, lift, load_each}

-- The checks of `luaM_newvector` for n elements of e bytes; the allocator grants what passes them.
unfoldable pub newvector : ℕ → ℕ → Outcome (Unit {0})
newvector n e =
    Outcome.◌>>◌ (defined (ltb (suc n) (2 ^ 31)))
      (error_if (ltb ((2 ^ 32 - 3) / e) (suc n)) "memory allocation error: block too big")

-- A char is signed.
abbrev pub to_char : ℕ → ℤ
to_char x = if ltb x (2 ^ 7) then pos x else negsuc (2 ^ 8 - 1 - x)

-- A cast of a char to an unsigned char.
abbrev pub to_byte : ℤ → ℕ
to_byte (pos n) = n
to_byte (negsuc n) = 2 ^ 8 - 1 - n

module _ {D : Type 0} (reader : D → Option (List ℕ) × D) where
  -- What `luaZ_read` returns, but for the missing bytes, which are an error.
  abbrev all_read : Bytes → Bytes × ℕ × Zio D → Outcome (Bytes × Zio D)
  all_read name (b, missing, z) =
      if missing == 0 then ok (b, z) else err (chunk_error name "truncated")

  module _ (name : Bytes) where
    unfoldable pub load_block : ℕ → Loader (Zio D) Bytes
    load_block size z = Outcome.◌>>=◌ (lua_z_read D reader z size) (all_read name)

    -- `LoadVar` of an unsigned number.
    unfoldable pub load_word : ℕ → Loader (Zio D) ℕ
    unfolding load_block
    load_word size = do b ← load_block size; pure (from_bytes b)

    unfoldable pub load_char : Loader (Zio D) ℤ
    unfolding load_word
    load_char = do x ← load_word 1; pure (to_char x)

    -- `LoadByte`, which undoes the sign of `LoadChar`.
    unfoldable pub load_byte : Loader (Zio D) ℕ
    unfolding load_char
    load_byte = do x ← load_char; pure (to_byte x)

    abbrev pub int_or_error : ℤ → Outcome ℕ
    int_or_error (pos n) = ok n
    int_or_error (negsuc n) = err (chunk_error name "corrupted")

    unfoldable pub load_int : Loader (Zio D) ℕ
    unfolding load_word
    load_int = do x ← load_word 4; lift (int_or_error (to_signed x))

    unfoldable pub load_number : Loader (Zio D) ℕ
    unfolding load_word
    load_number = load_word 8

    abbrev pub string_of : ℕ → Loader (Zio D) (Option Bytes)
    string_of zero = pure none
    string_of (suc len) = do s ← load_block (suc len); pure (some (take len s))

    -- `luaZ_openspace` and `luaS_newlstr` are taken to have room: they refuse sizes close to 2 ^ 32.
    unfoldable pub load_string : Loader (Zio D) (Option Bytes)
    unfolding load_word
    load_string = do size ← load_word 4; string_of size

    -- `LoadInt`, `luaM_newvector` and `LoadVector` of words of 4 bytes.
    unfoldable pub load_vector : Loader (Zio D) (List ℕ)
    unfolding load_int newvector
    load_vector = do
      n ← load_int
      lift (newvector n 4)
      b ← load_block (n * 4)
      pure (from_array 4 n b)

    -- A string whose size is 0 is NULL, of which `setsvalue2n` reads the tag.
    abbrev pub string_constant : Option Bytes → Outcome Constant
    string_constant none = fault
    string_constant (some s) = ok (string s)

    -- The `switch` of `LoadConstants`. A constant of another tag stays nil.
    abbrev pub constant_of : ℤ → Loader (Zio D) Constant
    constant_of (pos (suc zero)) = do b ← load_char; pure (boolean b)
    constant_of (pos (suc (suc (suc zero)))) = do n ← load_number; pure (number n)
    constant_of (pos (suc (suc (suc (suc zero))))) = do s ← load_string; lift (string_constant s)
    constant_of _ = pure nil

    unfoldable pub load_constant : Loader (Zio D) Constant
    unfolding load_char
    load_constant = do t ← load_char; constant_of t

    -- A size, a vector of elements of e bytes, and the loop that loads them.
    unfoldable pub load_array : {A : Type 0} → ℕ → Loader (Zio D) A → Loader (Zio D) (List A)
    unfolding load_int newvector
    load_array e load = do n ← load_int; lift (newvector n e); load_each load n

    unfoldable pub load_upvalue : Loader (Zio D) Upvaldesc
    unfolding load_byte
    load_upvalue = do
      instack ← load_byte
      idx ← load_byte
      pure (record { name = none; instack = instack; idx = idx })

    unfoldable pub load_locvar : Loader (Zio D) LocVar
    unfolding load_string load_int
    load_locvar = do
      varname ← load_string
      startpc ← load_int
      endpc ← load_int
      pure (record { varname = varname; startpc = pos startpc; endpc = pos endpc })

    -- The last loop of `LoadDebug`: it writes behind the upvalues when there are more names than those.
    unfoldable pub load_names : ℕ → List Upvaldesc → Loader (Zio D) (List Upvaldesc)
    unfolding load_string
    load_names zero us = pure us
    load_names (suc n) [] = do name ← load_string; lift fault
    load_names (suc n) (u ∷ us) = do
      name ← load_string
      rest ← load_names n us
      pure (record u { name = name } ∷ rest)

    -- The source, the lines, the local variables and the upvalues with their names.
    abbrev pub Debug : Type 0
    Debug = Option Bytes × List ℤ × List LocVar × List Upvaldesc

    unfoldable pub load_debug : List Upvaldesc → Loader (Zio D) Debug
    unfolding load_string load_vector load_int load_array load_names
    load_debug us = do
      source ← load_string
      lineinfo ← load_vector
      locvars ← load_array 12 load_locvar
      n ← load_int
      upvalues ← load_names n us
      pure (source, map to_signed lineinfo, locvars, upvalues)

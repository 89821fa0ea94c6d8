-- ===== src/Chunk/Dump.antt =====
-- Lua/src/ldump.cpp: a function is saved as a precompiled chunk. The writer is a parameter: from a block
-- and its data it returns a status and its new data. A function that dumps a part returns the blocks
-- that it passes to `DumpBlock`, in their order.
use addons_terraria_tshock.Common.{
  ℕ, suc, ◌==◌, Bool, if◌then◌else◌, Option, none, some, List, [], ◌∷◌, ◌++◌, map, length,
}
use addons_terraria_tshock.Common.Int.{ℤ, pos, to_unsigned}
use addons_terraria_tshock.Common.Memory.{to_bytes, to_array}
use addons_terraria_tshock.Chunk.{
  Bytes, Constant, nil, boolean, number, string, Upvaldesc, LocVar, Body, Proto, Protos, proto,
  last, ◌then◌, sizep, lua_u_header,
}

abbrev pub Blocks : Type 0
Blocks = List Bytes

-- The blocks of the elements of an array, one element after another.
abbrev pub for_each {ℓ} : {A : Type ℓ} → (A → Blocks) → List A → Blocks
for_each dump [] = []
for_each dump (x ∷ xs) = dump x ++ for_each dump xs

unfoldable pub dump_char : ℤ → Blocks
dump_char y = to_bytes 1 (to_unsigned y) ∷ []

unfoldable pub dump_int : ℤ → Blocks
dump_int x = to_bytes 4 (to_unsigned x) ∷ []

unfoldable pub dump_number : ℕ → Blocks
dump_number x = to_bytes 8 x ∷ []

-- `DumpVector` of words of 4 bytes.
unfoldable pub dump_vector : List ℕ → Blocks
dump_vector b = dump_int (pos (length b)) ++ (to_array 4 b ∷ [])

unfoldable pub dump_string : Option Bytes → Blocks
dump_string none = to_bytes 4 0 ∷ []
dump_string (some s) = to_bytes 4 (suc (length s)) ∷ (s ++ (0 ∷ [])) ∷ []

unfoldable pub dump_constant : Constant → Blocks
dump_constant nil = dump_char (pos 0)
dump_constant (boolean b) = dump_char (pos 1) ++ dump_char b
dump_constant (number n) = dump_char (pos 3) ++ dump_number n
dump_constant (string s) = dump_char (pos 4) ++ dump_string (some s)

unfoldable pub dump_upvalue : Upvaldesc → Blocks
dump_upvalue u = dump_char (pos u.instack) ++ dump_char (pos u.idx)

unfoldable pub dump_upvalues : Body → Blocks
dump_upvalues f = dump_int (pos (length f.upvalues)) ++ for_each dump_upvalue f.upvalues

unfoldable pub dump_locvar : LocVar → Blocks
dump_locvar v = dump_string v.varname ++ (dump_int v.startpc ++ dump_int v.endpc)

-- What `strip` leaves of an array, and of a string.
abbrev pub unless_strip {ℓ} : {A : Type ℓ} → Bool → A → A → A
unless_strip strip empty full = if strip then empty else full

unfoldable pub dump_debug : Bool → Body → Blocks
dump_debug strip f =
    let locvars = unless_strip strip [] f.locvars in
    let upvalues = unless_strip strip [] f.upvalues in
    dump_string (unless_strip strip none f.source)
    ++ (dump_vector (map to_unsigned (unless_strip strip [] f.lineinfo))
        ++ ((dump_int (pos (length locvars)) ++ for_each dump_locvar locvars)
            ++ (dump_int (pos (length upvalues))
                ++ for_each (λ (u : Upvaldesc). dump_string u.name) upvalues)))

unfoldable mutual
  pub dump_function : Bool → Proto → Blocks
  dump_function strip (proto f p) =
      dump_int f.linedefined
      ++ (dump_int f.lastlinedefined
          ++ (dump_char (pos f.numparams)
              ++ (dump_char (pos f.is_vararg)
                  ++ (dump_char (pos f.maxstacksize)
                      ++ (dump_vector f.code
                          ++ ((dump_int (pos (length f.k)) ++ for_each dump_constant f.k)
                              ++ (dump_int (pos (sizep p))
                                  ++ (dump_functions strip p
                                      ++ (dump_upvalues f ++ dump_debug strip f)))))))))

  -- The second loop of `DumpConstants`.
  pub dump_functions : Bool → Protos → Blocks
  dump_functions strip last = []
  dump_functions strip (f then fs) = dump_function strip f ++ dump_functions strip fs

module _ {W : Type 0} (writer : Bytes → W → ℕ × W) where
  -- The status and the writer's data, of a `DumpState`.
  abbrev pub dump_block : Bytes → ℕ × W → ℕ × W
  dump_block b (status, data_of) = if status == 0 then writer b data_of else (status, data_of)

  abbrev pub dump_blocks : Blocks → ℕ × W → ℕ × W
  dump_blocks [] state = state
  dump_blocks (b ∷ bs) state = dump_blocks bs (dump_block b state)

  -- The status, and the data that the writer is left with.
  unfoldable pub lua_u_dump : Proto → W → Bool → ℕ × W
  unfolding lua_u_header
  lua_u_dump f data_of strip = dump_blocks (lua_u_header ∷ dump_function strip f) (0, data_of)

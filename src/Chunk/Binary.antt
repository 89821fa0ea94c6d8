-- ===== src/Chunk/Binary.antt =====
-- Lua/src/ldo.cpp, Lua/src/lapi.cpp, Lua/src/lauxlib.cpp and Lua/src/lstrlib.cpp: the calls by which a
-- function becomes a string and a chunk becomes a function. `luaY_parser` is an argument here: a chunk
-- that does not begin with the signature is passed to it.
use addons_terraria_tshock.Common.{
  ℕ, ◌==◌, Bool, false, ◌||◌, if◌then◌else◌, Option, none, some, List, [], ◌∷◌, ◌++◌, replicate,
}
use Prim.Native.String.{String}
use addons_terraria_tshock.Common.Outcome.{Outcome, ok, err, error, mode_error}
use addons_terraria_tshock.Common.Outcome
use addons_terraria_tshock.Zio.{Zio, lua_z_init, zgetc}
use addons_terraria_tshock.Chunk.{Bytes, Proto}
use addons_terraria_tshock.Chunk.Dump.{lua_u_dump}
use addons_terraria_tshock.Chunk.Loader.{Loader, ◌>>=◌, ◌>>◌, pure, lift}
use addons_terraria_tshock.Chunk.Undump.{Closure, lua_u_undump}

-- What an upvalue of a function that has just been loaded holds.
pub data Upval : Type 0 where
  nil globals : Upval

pub record Loaded : Type 0 where
  pub p : Proto
  pub upvals : List Upval

-- A function on the stack: a Lua function, with its prototype, or one of C.
pub data Callable : Type 0 where
  lua_function : Proto → Callable
  c_function : Callable

abbrev has_char : ℕ → Bytes → Bool
has_char c [] = false
has_char c (x ∷ xs) = x == c || has_char c xs

-- The mode is NULL or a string, and c is the first character of what is loaded.
unfoldable pub checkmode : Option Bytes → ℕ → String → Outcome (Unit {0})
checkmode none c x = ok tt
checkmode (some mode) c x = if has_char c mode then ok tt else err (mode_error x mode)

-- `luaF_newupval` for each of the upvalues.
abbrev pub initialized : Closure → Loaded
initialized cl = record { p = cl.p; upvals = replicate cl.nupvalues nil }

-- The first upvalue is set to the table of globals, if it is the only one.
abbrev pub with_globals : Loaded → Loaded
with_globals f = record f { upvals = set_first f.upvals }
  where
    set_first : List Upval → List Upval
    set_first (u ∷ []) = globals ∷ []
    set_first us = us

module _ {D : Type 0} (reader : D → Option (List ℕ) × D)
    (lua_y_parser : Bytes → Option ℕ → Loader (Zio D) Closure) where
  abbrev parse : ℕ → Bytes → Option Bytes → Option ℕ → Loader (Zio D) Closure
  parse fuel name mode none = do lift (checkmode mode 0x74 "text"); lua_y_parser name none
  parse fuel name mode (some c) =
      if c == 0x1b
      then (do lift (checkmode mode 0x62 "binary"); lua_u_undump reader fuel name)
      else (do lift (checkmode mode 0x74 "text"); lua_y_parser name (some c))

  unfoldable pub f_parser : ℕ → Bytes → Option Bytes → Loader (Zio D) Loaded
  unfolding checkmode lua_u_undump
  f_parser fuel name mode = do
    c ← zgetc D reader
    cl ← parse fuel name mode c
    pure (initialized cl)

  -- The chunk's name is "?" where it is NULL. The stream ends with the call.
  unfoldable pub lua_load : ℕ → D → Option Bytes → Option Bytes → Outcome Loaded
  unfolding f_parser
  lua_load fuel data_of chunkname mode =
      Outcome.◌>>=◌ (f_parser fuel (name_of chunkname) mode (lua_z_init D reader data_of))
        (λ (f, z). ok (with_globals f))
    where
      name_of : Option Bytes → Bytes
      name_of none = 0x3f ∷ []
      name_of (some name) = name

-- `getS`, whose data is what is still to be read.
unfoldable pub get_s : Bytes → Option (List ℕ) × Bytes
get_s [] = (none, [])
get_s (c ∷ cs) = (some (c ∷ cs), [])

unfoldable pub lua_l_loadbufferx :
    (Bytes → Option ℕ → Loader (Zio Bytes) Closure)
    → ℕ
    → Bytes
    → Bytes
    → Option Bytes
    → Outcome Loaded
unfolding lua_load get_s
lua_l_loadbufferx lua_y_parser fuel buff name mode =
    lua_load get_s lua_y_parser fuel buff (some name) mode

-- The status, and the data that the writer is left with.
unfoldable pub lua_dump : {W : Type 0} → (Bytes → W → ℕ × W) → Callable → W → ℕ × W
unfolding lua_u_dump
lua_dump writer (lua_function p) data_of = lua_u_dump writer p data_of false
lua_dump writer c_function data_of = (1, data_of)

-- `writer` of lstrlib.cpp, which appends to a buffer.
unfoldable pub writer : Bytes → Bytes → ℕ × Bytes
writer b buffer = (0, buffer ++ b)

abbrev pub dumped : ℕ × Bytes → Outcome Bytes
dumped (status, buffer) =
    if status == 0 then ok buffer else err (error "unable to dump given function")

-- `string.dump`, of a function.
unfoldable pub str_dump : Callable → Outcome Bytes
unfolding lua_dump writer
str_dump f = dumped (lua_dump writer f [])

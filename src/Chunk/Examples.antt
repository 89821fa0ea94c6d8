-- ===== src/Chunk/Examples.antt =====
-- Lua/src/ldump.cpp and Lua/src/lundump.cpp: a small function, dumped and loaded, and the theorems at it.
use addons_terraria_tshock.Common.{
  ℕ, suc, ◌*◌, ◌^◌, sym, subst, ◌≤◌, ◌≡◌, ◌≢◌, ◌==◌, if◌then◌else◌, refl, true, false, Option, none,
  some, [], ◌∷◌, ◌++◌, drop, length, flatten, arith,
}
use mathlib.Core.List.{append-nil}
use addons_terraria_tshock.Common.Int.{pos}
use addons_terraria_tshock.Common.Outcome.{ok, err, fault, no_fuel, chunk_error}
use addons_terraria_tshock.Zio.{Zio, lua_z_init}
use addons_terraria_tshock.Zio.Reading.{Ahead}
use addons_terraria_tshock.Chunk.{
  Bytes, nil, boolean, number, string, Body, Proto, proto, last, ◌then◌, lua_u_header,
}
use addons_terraria_tshock.Chunk.Dump.{dump_debug, lua_u_dump, dump_int, dump_string, dump_function}
use addons_terraria_tshock.Chunk.Loader.{Loader}
use addons_terraria_tshock.Chunk.Load.{load_debug}
use addons_terraria_tshock.Chunk.Undump.{Closure, closure_of, chunk_name, lua_u_undump}
use addons_terraria_tshock.Chunk.Shape.{IsBody, IsProto, depth, stripped}
use addons_terraria_tshock.Chunk.Binary.{
  checkmode, initialized, with_globals, f_parser, get_s, lua_l_loadbufferx, lua_function, str_dump,
}
use addons_terraria_tshock.Chunk.Writing.{chunk_blocks, chunk, lua_u_dump_fails}
use addons_terraria_tshock.Chunk.Loading.{
  get_s-Ahead, f_parser-chunk, f_parser_truncated, lua_l_loadbufferx-str_dump,
}
use addons_terraria_tshock.Chunk.Header.{HeaderAnswer, load_header_lem}
use addons_terraria_tshock.Chunk.Debug.{IsDebug}
use addons_terraria_tshock.Chunk.Fuel.{lua_u_undump_ends}
use addons_terraria_tshock.Chunk.Overrun.{load_debug_overrun}

-- A function of one instruction, without constants.
abbrev inner : Body
inner = record {
  linedefined = pos 2;
  lastlinedefined = pos 3;
  numparams = 1;
  is_vararg = 0;
  maxstacksize = 2;
  code = 0x0080001f ∷ [];
  k = [];
  upvalues = [];
  source = none;
  lineinfo = pos 3 ∷ [];
  locvars = record { varname = some (0x78 ∷ []); startpc = pos 0; endpc = pos 1 } ∷ [];
}

-- A main function, with constants of each kind and the upvalue _ENV, around it.
abbrev outer : Body
outer = record {
  linedefined = pos 0;
  lastlinedefined = pos 0;
  numparams = 0;
  is_vararg = 1;
  maxstacksize = 3;
  code = 0x00000025 ∷ 0x0080001f ∷ [];
  k = nil ∷ boolean (pos 1) ∷ number (1023 * 2 ^ 52) ∷ string (0x68 ∷ 0x69 ∷ []) ∷ [];
  upvalues = record { name = some (0x5f ∷ 0x45 ∷ 0x4e ∷ 0x56 ∷ []); instack = 1; idx = 0 } ∷ [];
  source = some (0x3d ∷ 0x78 ∷ []);
  lineinfo = pos 1 ∷ pos 4 ∷ [];
  locvars = [];
}

abbrev main : Proto
main = proto outer (proto inner last then last)

inner-IsBody : IsBody inner
inner-IsBody = (
  omega arith,
  omega arith,
  omega arith,
  omega arith,
  omega arith,
  (omega arith, tt),
  omega arith,
  tt,
  omega arith,
  (
    tt,
    (omega arith, tt),
    omega arith,
    ((omega arith, omega arith, omega arith), tt),
    omega arith,
    tt,
    omega arith,
  ),
)

outer-IsDebug : IsDebug outer
outer-IsDebug = (
  omega arith,
  (omega arith, (omega arith, tt)),
  omega arith,
  tt,
  omega arith,
  ((omega arith, omega arith, omega arith), tt),
  omega arith,
)

outer-IsBody : IsBody outer
outer-IsBody = (
  omega arith,
  omega arith,
  omega arith,
  omega arith,
  omega arith,
  (omega arith, (omega arith, tt)),
  omega arith,
  (tt, (omega arith, (omega arith, (omega arith, tt)))),
  omega arith,
  outer-IsDebug,
)

main-IsProto : IsProto main
unfolding IsProto
main-IsProto = (outer-IsBody, omega arith, ((inner-IsBody, omega arith, tt), tt))

main-depth : depth main ≤ 2
unfolding depth
main-depth = omega arith

binary : checkmode (some (0x62 ∷ [])) 0x62 "binary" ≡ ok tt
unfolding checkmode
binary = refl

-- A parser that no binary chunk reaches.
abbrev no_parser : Bytes → Option ℕ → Loader (Zio Bytes) Closure
no_parser name c z = fault

-- The stream that `luaL_loadbufferx` reads, of the chunk.
abbrev start : Zio Bytes
start = lua_z_init Bytes get_s (chunk true main)

start-Ahead : Ahead Bytes get_s start (chunk true main ++ [])
unfolding lua_u_header
start-Ahead =
    subst (Ahead Bytes get_s start) (sym (append-nil (chunk true main)))
      (get_s-Ahead 0x1b (drop 1 (chunk true main)))

f_parser-chunk_example :
    (y : Zio Bytes) × (f_parser get_s no_parser 2 (0x3d ∷ 0x78 ∷ []) (some (0x62 ∷ [])) start
      ≡ ok (initialized (closure_of (stripped true main)), y))
    × Ahead Bytes get_s y []
f_parser-chunk_example =
    f_parser-chunk get_s no_parser true main 2 (0x3d ∷ 0x78 ∷ []) (some (0x62 ∷ [])) start []
      main-IsProto main-depth binary start-Ahead

-- The chunk without all but its first three bytes.
cut : (0x1b ∷ 0x4c ∷ 0x75 ∷ []) ++ drop 3 (chunk true main) ≡ chunk true main
unfolding lua_u_header
cut = refl

cut-length : 1 ≤ length (drop 3 (chunk true main))
unfolding lua_u_header
cut-length = omega arith

f_parser_truncated_example :
    f_parser get_s no_parser 2
      (0x3d ∷ 0x78 ∷ [])
      (some (0x62 ∷ []))
      (lua_z_init Bytes get_s (0x1b ∷ 0x4c ∷ 0x75 ∷ []))
    ≡ err (chunk_error (chunk_name (0x3d ∷ 0x78 ∷ [])) "truncated")
f_parser_truncated_example =
    f_parser_truncated get_s no_parser true main 2 (0x3d ∷ 0x78 ∷ []) (some (0x62 ∷ []))
      (lua_z_init Bytes get_s (0x1b ∷ 0x4c ∷ 0x75 ∷ [])) 0x1b (0x4c ∷ 0x75 ∷ [])
      (drop 3 (chunk true main)) main-IsProto main-depth binary cut cut-length
      (get_s-Ahead 0x1b (0x4c ∷ 0x75 ∷ []))

lua_l_loadbufferx-str_dump_example :
    (s : Bytes) × (str_dump (lua_function main) ≡ ok s)
    × (lua_l_loadbufferx no_parser 2 s (0x3d ∷ 0x78 ∷ []) (some (0x62 ∷ []))
        ≡ ok (with_globals (initialized (closure_of main))))
lua_l_loadbufferx-str_dump_example =
    lua_l_loadbufferx-str_dump no_parser main 2 (0x3d ∷ 0x78 ∷ []) (some (0x62 ∷ [])) main-IsProto
      main-depth binary

lua_u_undump_ends_example :
    lua_u_undump get_s 4 (0x3d ∷ 0x78 ∷ []) (lua_z_init Bytes get_s (1 ∷ 2 ∷ 3 ∷ [])) ≢ no_fuel
lua_u_undump_ends_example =
    lua_u_undump_ends get_s 4 (0x3d ∷ 0x78 ∷ []) (lua_z_init Bytes get_s (1 ∷ 2 ∷ 3 ∷ []))
      (1 ∷ 2 ∷ 3 ∷ []) (get_s-Ahead 1 (2 ∷ 3 ∷ [])) (omega arith)

-- A stream of the header behind its first byte, and one more byte.
abbrev header_bytes : Bytes
header_bytes = 0x4c ∷ drop 2 lua_u_header ++ (7 ∷ [])

load_header_lem_example : HeaderAnswer get_s [] (lua_z_init Bytes get_s header_bytes) header_bytes
load_header_lem_example =
    load_header_lem get_s [] (lua_z_init Bytes get_s header_bytes) header_bytes
      (get_s-Ahead 0x4c (drop 2 lua_u_header ++ (7 ∷ [])))

-- A writer that counts its calls, and fails at the second.
abbrev failing : Bytes → ℕ → ℕ × ℕ
failing b n = (if n == 1 then 7 else 0, suc n)

second :
    chunk_blocks false main
    ≡ (lua_u_header ∷ []) ++ ((0 ∷ 0 ∷ 0 ∷ 0 ∷ []) ∷ drop 1 (dump_function false main))
unfolding dump_function dump_int
second = refl

lua_u_dump_fails_example : lua_u_dump failing main 0 false ≡ (7, 2)
lua_u_dump_fails_example =
    lua_u_dump_fails failing main false 0 1 2 (lua_u_header ∷ [])
      (drop 1 (dump_function false main)) (0 ∷ 0 ∷ 0 ∷ 0 ∷ []) 7 second refl refl (omega arith)

-- The debug information of the main function, which names one upvalue.
abbrev debug_bytes : Bytes
debug_bytes = flatten (dump_debug false outer)

debug-Ahead : Ahead Bytes get_s (lua_z_init Bytes get_s debug_bytes) (debug_bytes ++ [])
unfolding dump_debug dump_string
debug-Ahead =
    subst (Ahead Bytes get_s (lua_z_init Bytes get_s debug_bytes)) (sym (append-nil debug_bytes))
      (get_s-Ahead 3 (drop 1 debug_bytes))

load_debug_overrun_example : load_debug get_s [] [] (lua_z_init Bytes get_s debug_bytes) ≡ fault
load_debug_overrun_example =
    load_debug_overrun get_s [] [] outer (lua_z_init Bytes get_s debug_bytes) [] outer-IsDebug
      (omega arith) debug-Ahead

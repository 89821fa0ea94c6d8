-- ===== src/Chunk/Loading.antt =====
-- Lua/src/ldo.cpp, Lua/src/lauxlib.cpp and Lua/src/lstrlib.cpp: a chunk that is loaded, whole or cut, in a
-- mode that allows binary chunks or not.
use addons_terraria_tshock.Common.{
  ℕ, ◌≤◌, Bool, false, Option, List, [], ◌∷◌, ◌++◌, length, drop, flatten, ◌≡◌, refl, sym, subst,
}
use mathlib.Core.List.{append-nil}
use addons_terraria_tshock.Common.Outcome.{ok, err, chunk_error}
use addons_terraria_tshock.Zio.{Zio, lua_z_init}
use addons_terraria_tshock.Zio.Reading.{Ahead, ends, more, zgetc_lem}
use addons_terraria_tshock.Chunk.{Bytes, Proto, lua_u_header}
use addons_terraria_tshock.Chunk.Dump.{dump_function}
use addons_terraria_tshock.Chunk.Loader.{Loader}
use addons_terraria_tshock.Chunk.Undump.{Closure, closure_of, chunk_name}
use addons_terraria_tshock.Chunk.Shape.{IsProto, depth, stripped, stripped-false}
use addons_terraria_tshock.Chunk.RoundTrip.{lua_u_undump-Reads}
use addons_terraria_tshock.Chunk.Binary.{
  checkmode, initialized, with_globals, f_parser, lua_load, get_s, lua_l_loadbufferx, lua_function,
  lua_dump, str_dump,
}
use addons_terraria_tshock.Chunk.Writing.{chunk, lua_u_dump-writer}

module _ {D : Type 0} (reader : D → Option (List ℕ) × D)
    (parser : Bytes → Option ℕ → Loader (Zio D) Closure) where
  -- Wherever a chunk of a function is ahead, whatever the buffers in which it comes, `f_parser` takes it
  -- and returns the function, or what stripping leaves of it, if the mode allows binary chunks, the
  -- fields of the function fit their types and its vectors can be allocated, and the fuel is no less
  -- than the depth of its functions.
  pub f_parser-chunk :
      (strip : Bool) (f : Proto) (fuel : ℕ) (name : Bytes) (mode : Option Bytes) (z : Zio D)
      (rest : List ℕ)
      → IsProto f
      → depth f ≤ fuel
      → checkmode mode 0x62 "binary" ≡ ok tt
      → Ahead D reader z (chunk strip f ++ rest)
      → (y : Zio D) × (f_parser reader parser fuel name mode z
          ≡ ok (initialized (closure_of (stripped strip f)), y))
        × Ahead D reader y rest
  unfolding f_parser lua_u_header
  f_parser-chunk strip f fuel name mode z rest h l m ahead =
      let (y, e, g) = zgetc_lem D reader z 0x1b _ ahead in
      let (w, q, left) = (lua_u_undump-Reads reader strip f fuel name h l).0 y rest g in
      (w, rw (e, m, q) refl, left)

  -- Where the stream ends within the chunk of such a function, behind its first byte, `f_parser` raises
  -- the error that the chunk is truncated, in a mode that allows binary chunks.
  pub f_parser_truncated :
      (strip : Bool) (f : Proto) (fuel : ℕ) (name : Bytes) (mode : Option Bytes) (z : Zio D) (c : ℕ)
      (s t : List ℕ)
      → IsProto f
      → depth f ≤ fuel
      → checkmode mode 0x62 "binary" ≡ ok tt
      → (c ∷ s) ++ t ≡ chunk strip f
      → 1 ≤ length t
      → Ahead D reader z (c ∷ s)
      → f_parser reader parser fuel name mode z ≡ err (chunk_error (chunk_name name) "truncated")
  unfolding f_parser lua_u_header
  f_parser_truncated strip f fuel name mode z c s t h l m split cut ahead =
      let (y, e, g) = zgetc_lem D reader z c s ahead in
      let same : c ≡ 0x1b = cc in
      let left : s ++ t ≡ drop 1 lua_u_header ++ flatten (dump_function strip f) = cc in
      rw (e, same, m, (lua_u_undump-Reads reader strip f fuel name h l).1 y s t g left cut) refl

-- The stream of a string.
pub get_s-Ahead : (c : ℕ) (s : Bytes) → Ahead Bytes get_s (lua_z_init Bytes get_s (c ∷ s)) (c ∷ s)
unfolding get_s
get_s-Ahead c s = (refl, (c ∷ s) ++ [], more refl (ends refl), sym (append-nil (c ∷ s)))

-- Of a Lua function whose fields fit their types `string.dump` gives a string, and `luaL_loadbufferx`, in
-- a mode that allows binary chunks, makes of it a function with the same prototype, whose upvalues are
-- nil, or the globals if there is only one.
pub lua_l_loadbufferx-str_dump :
    (parser : Bytes → Option ℕ → Loader (Zio Bytes) Closure) (f : Proto) (fuel : ℕ) (name : Bytes)
    (mode : Option Bytes)
    → IsProto f
    → depth f ≤ fuel
    → checkmode mode 0x62 "binary" ≡ ok tt
    → (s : Bytes) × (str_dump (lua_function f) ≡ ok s)
      × (lua_l_loadbufferx parser fuel s name mode ≡ ok (with_globals (initialized (closure_of f))))
unfolding str_dump lua_l_loadbufferx lua_load lua_u_header lua_dump
lua_l_loadbufferx-str_dump parser f fuel name mode h l m =
    let ahead = get_s-Ahead 0x1b (drop 1 lua_u_header ++ flatten (dump_function false f)) in
    let start = lua_z_init Bytes get_s (chunk false f) in
    let (y, e, left) =
      f_parser-chunk get_s parser false f fuel name mode start [] h l m
        (subst (Ahead Bytes get_s start) (sym (append-nil (chunk false f))) ahead) in
    (chunk false f, rw (lua_u_dump-writer f false) refl, rw (e, stripped-false f) refl)

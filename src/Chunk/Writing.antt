-- ===== src/Chunk/Writing.antt =====
-- Lua/src/ldump.cpp: what `luaU_dump` passes to its writer.
use addons_terraria_tshock.Common.{
  ℕ, ◌==◌, Bool, false, [], ◌∷◌, ◌++◌, flatten, ◌≡◌, ◌≢◌, refl, sym, ap, ◌∙◌, arith,
}
use mathlib.Core.List.{append_assoc, append-nil}
use addons_terraria_tshock.Chunk.{Bytes, Proto, lua_u_header}
use addons_terraria_tshock.Chunk.Dump.{Blocks, dump_block, dump_blocks, dump_function, lua_u_dump}
use addons_terraria_tshock.Chunk.Binary.{writer}

-- The blocks of a chunk, and its bytes.
abbrev pub chunk_blocks : Bool → Proto → Blocks
chunk_blocks strip f = lua_u_header ∷ dump_function strip f

abbrev pub chunk : Bool → Proto → Bytes
chunk strip f = flatten (chunk_blocks strip f)

module _ {W : Type 0} (write : Bytes → W → ℕ × W) where
  -- Once a block has failed, no other is written.
  dump_blocks_failed : (bs : Blocks) (e : ℕ) (w : W) → e ≢ 0 → dump_blocks write bs (e, w) ≡ (e, w)
  dump_blocks_failed [] e w h = refl
  dump_blocks_failed (b ∷ bs) e w h = rw zero (dump_blocks_failed bs e w h)
    where
      zero : (e == 0) ≡ false
      zero = ground (arith, h)

  dump_blocks-append :
      (bs cs : Blocks) (state : ℕ × W)
      → dump_blocks write (bs ++ cs) state ≡ dump_blocks write cs (dump_blocks write bs state)
  dump_blocks-append [] cs state = refl
  dump_blocks-append (b ∷ bs) cs state = dump_blocks-append bs cs (dump_block write b state)

  -- When the writer fails at a block of the chunk, having accepted those before, `luaU_dump` returns its
  -- status, and the writer is not called again.
  pub lua_u_dump_fails :
      (f : Proto) (strip : Bool) (data_of w v : W) (bs cs : Blocks) (b : Bytes) (e : ℕ)
      → chunk_blocks strip f ≡ bs ++ (b ∷ cs)
      → dump_blocks write bs (0, data_of) ≡ (0, w)
      → write b w ≡ (e, v)
      → e ≢ 0
      → lua_u_dump write f data_of strip ≡ (e, v)
  unfolding lua_u_dump
  lua_u_dump_fails f strip data_of w v bs cs b e split before fails h =
      ap (λ (t : Blocks). dump_blocks write t (0, data_of)) split
      ∙ dump_blocks-append bs (b ∷ cs) (0, data_of)
      ∙ ap (λ (s : ℕ × W). dump_blocks write (b ∷ cs) s) before
      ∙ ap (λ (s : ℕ × W). dump_blocks write cs s) fails
      ∙ dump_blocks_failed cs e v h

dump_blocks-writer :
    (bs : Blocks) (buffer : Bytes) → dump_blocks writer bs (0, buffer) ≡ (0, buffer ++ flatten bs)
unfolding writer
dump_blocks-writer [] buffer = ap (λ (t : Bytes). (0, t)) (sym (append-nil buffer))
dump_blocks-writer (b ∷ bs) buffer =
    dump_blocks-writer bs (buffer ++ b)
    ∙ ap (λ (t : Bytes). (0, t)) (append_assoc buffer b (flatten bs))

-- A writer that accepts every block gets the bytes of the chunk.
pub lua_u_dump-writer :
    (f : Proto) (strip : Bool) → lua_u_dump writer f [] strip ≡ (0, chunk strip f)
unfolding lua_u_dump
lua_u_dump-writer f strip = dump_blocks-writer (chunk_blocks strip f) []

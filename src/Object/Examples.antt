-- ===== src/Object/Examples.antt =====
-- Lua/src/lobject.cpp: names of chunks and sizes of tables.
use addons_terraria_tshock.Common.{ℕ, ◌*◌, ◌^◌, ◌≤◌, ◌<◌, ◌⊎◌, ◌≡◌, refl, [], ◌∷◌, replicate, arith}
use addons_terraria_tshock.Common.Outcome.{ok}
use addons_terraria_tshock.Object.{chunkid}
use addons_terraria_tshock.Object.ChunkId.{Fits, chunkid-Fits}
use addons_terraria_tshock.Object.CeilLog.{lua_o_ceillog2, lua_o_ceillog2_lem}
use addons_terraria_tshock.Object.FloatingByte.{int2fb, fb2int, fb2int-int2fb}

-- `@abcdefghijklmnop` in a buffer of 15 bytes: dots, and the end of the name.
file_run :
    chunkid
      (b'@' ∷ 97 ∷ 98 ∷ 99 ∷ 100 ∷ 101 ∷ 102 ∷ 103 ∷ 104 ∷ 105 ∷ 106 ∷ 107 ∷ 108 ∷ 109 ∷ 110 ∷ 111
        ∷ 112 ∷ [])
      15
    ≡ b'.' ∷ b'.' ∷ b'.' ∷ 102 ∷ 103 ∷ 104 ∷ 105 ∷ 106 ∷ 107 ∷ 108 ∷ 109 ∷ 110 ∷ 111 ∷ 112 ∷ 0 ∷ []
unfolding chunkid
file_run = refl

-- A source of two lines: the first one, and dots.
string_run :
    chunkid (b'x' ∷ b'=' ∷ 10 ∷ b'y' ∷ []) 60
    ≡ b'[' ∷ b's' ∷ b't' ∷ b'r' ∷ b'i' ∷ b'n' ∷ b'g' ∷ b' ' ∷ b'"' ∷ b'x' ∷ b'=' ∷ b'.' ∷ b'.'
      ∷ b'.' ∷ b'"' ∷ b']' ∷ 0 ∷ []
unfolding chunkid
string_run = refl

byte_run : (int2fb 100 ≡ ok 37) × (fb2int 37 ≡ ok 104)
unfolding int2fb fb2int
byte_run = (refl, refl)

chunkid-Fits_example : Fits 60 (chunkid (replicate 100 b'a') 60)
chunkid-Fits_example =
    chunkid-Fits (replicate 100 b'a') 60 (omega arith) (omega arith) (omega arith)

fb2int-int2fb_example :
    (f y : ℕ) × (int2fb 1000 ≡ ok f) × (fb2int f ≡ ok y) × (1000 ≤ y) × (7 * y ≤ 8 * 1000)
fb2int-int2fb_example = fb2int-int2fb 1000 (omega arith)

lua_o_ceillog2_lem_example :
    (r : ℕ) × (lua_o_ceillog2 1000 ≡ ok r) × (1000 ≤ 2 ^ r) × (r ≡ 0 ⊎ 2 ^ r < 2 * 1000)
lua_o_ceillog2_lem_example = lua_o_ceillog2_lem 1000 (omega arith) (omega arith)

-- ===== src/Zio/Examples.antt =====
-- Lua/src/lzio.cpp: runs over a reader that gives the buffers of a list, and the theorems at them.
use addons_terraria_tshock.Common.{
  ℕ, ◌-◌, ◌^◌, ◌<◌, ◌≡◌, ◌⊎◌, refl, Option, none, some, List, [], ◌∷◌,
}
use addons_terraria_tshock.Common.Outcome.{ok, fault}
use addons_terraria_tshock.Zio.{Zio, lua_z_init, zgetc, refill, lua_z_read}
use addons_terraria_tshock.Zio.Reading.{ends, more, Ahead, lua_z_read_lem}

abbrev buffers : List (List ℕ) → Option (List ℕ) × List (List ℕ)
buffers [] = (none, [])
buffers (b ∷ bs) = (some b, bs)

abbrev stream : Zio (List (List ℕ))
stream = lua_z_init (List (List ℕ)) buffers ((1 ∷ 2 ∷ []) ∷ (3 ∷ 4 ∷ 5 ∷ []) ∷ [])

stream-Ahead : Ahead (List (List ℕ)) buffers stream (1 ∷ 2 ∷ 3 ∷ 4 ∷ 5 ∷ [])
stream-Ahead = (refl, 1 ∷ 2 ∷ 3 ∷ 4 ∷ 5 ∷ [], more refl (more refl (ends refl)), refl)

-- Six bytes are asked for, and one is missing.
read_run :
    lua_z_read (List (List ℕ)) buffers stream 6
    ≡ ok (1 ∷ 2 ∷ 3 ∷ 4 ∷ 5 ∷ [], 1, record { n = 0; p = []; data_of = [] })
unfolding lua_z_read refill
read_run = refl

-- A character that is asked for behind the end is read out of bounds, since the count has wrapped.
zgetc_run :
    (zgetc (List (List ℕ)) buffers (record { n = 0; p = []; data_of = [] })
      ≡ ok (none, record { n = 2 ^ 32 - 1; p = []; data_of = [] }))
    × (zgetc (List (List ℕ)) buffers (record { n = 2 ^ 32 - 1; p = []; data_of = [] }) ≡ fault)
unfolding zgetc
zgetc_run = (refl, refl)

lua_z_read_lem_example :
    (y : Zio (List (List ℕ))) × (lua_z_read (List (List ℕ)) buffers stream 4
      ≡ ok (1 ∷ 2 ∷ 3 ∷ 4 ∷ [], 0, y))
    × (Ahead (List (List ℕ)) buffers y (5 ∷ []) ⊎ (5 < 4))
lua_z_read_lem_example =
    lua_z_read_lem (List (List ℕ)) buffers stream 4 (1 ∷ 2 ∷ 3 ∷ 4 ∷ 5 ∷ []) stream-Ahead

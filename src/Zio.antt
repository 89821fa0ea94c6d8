-- ===== src/Zio.antt =====
-- Lua/src/lzio.cpp and Lua/include/lzio.h: buffered streams. The reader is a parameter: from its data
-- it returns the next buffer, or none, and its new data. EOZ is `none`.
pub mod Reading
mod Examples
use addons_terraria_tshock.Common.{
  ℕ, zero, suc, ◌+◌, ◌-◌, ◌^◌, ◌==◌, leb, if◌then◌else◌, Option, none, some, List, [], ◌∷◌, ◌++◌,
  length, take, drop,
}
use addons_terraria_tshock.Common.Outcome.{Outcome, ok, fault, no_fuel, ◌>>=◌, ◌>>◌, defined}

-- `n` counts the bytes still unread, and `p` holds the bytes from the current position on.
pub record Zio (D : Type 0) : Type 0 where
  pub n : ℕ
  pub p : List ℕ
  pub data_of : D

-- What the head of the loop of `luaZ_read` finds: the end of the stream, or bytes in the buffer.
pub data Refill (D : Type 0) : Type 0 where
  ended ready : Zio D → Refill D

module _ (D : Type 0) (reader : D → Option (List ℕ) × D) where
  abbrev pub filled : Zio D → Option (List ℕ) × D → Option ℕ × Zio D
  filled z (none, d) = (none, record z { data_of = d })
  filled z (some [], d) = (none, record z { data_of = d })
  filled z (some (c ∷ cs), d) = (some c, record { n = length cs; p = cs; data_of = d })

  unfoldable pub lua_z_fill : Zio D → Option ℕ × Zio D
  lua_z_fill z = filled z (reader z.data_of)

  abbrev pub lua_z_init : D → Zio D
  lua_z_init d = record { n = 0; p = []; data_of = d }

  abbrev advance : ℕ → List ℕ → Zio D → Outcome (Option ℕ × Zio D)
  advance n [] z = fault
  advance n (c ∷ cs) z = ok (some c, record z { n = n; p = cs })

  -- `n--` wraps around before the buffer is filled.
  unfoldable pub zgetc : Zio D → Outcome (Option ℕ × Zio D)
  unfolding lua_z_fill
  zgetc z = elim z.n [
    | zero ↦ ok (lua_z_fill (record z { n = 2 ^ 32 - 1 }))
    | suc n ↦ advance n z.p z
  ]

  -- The first byte that `luaZ_fill` took is put back.
  abbrev pub put_back : Option ℕ × Zio D → Refill D
  put_back (none, z) = ended z
  put_back (some c, z) = ready (record z { n = suc z.n; p = c ∷ z.p })

  -- The `if` at the head of the loop of `luaZ_read`.
  unfoldable pub refill : Zio D → Refill D
  unfolding lua_z_fill
  refill z = if z.n == 0 then put_back (lua_z_fill z) else ready z

  -- The rest of a round, before the next ones.
  abbrev pub copy :
      (ℕ → List ℕ → Zio D → Outcome (List ℕ × ℕ × Zio D))
      → ℕ
      → List ℕ
      → Refill D
      → Outcome (List ℕ × ℕ × Zio D)
  copy again n b (ended y) = ok (b, n, y)
  copy again n b (ready y) =
      let m = if leb n y.n then n else y.n in
      defined (leb m (length y.p))
      >> again (n - m) (b ++ take m y.p) (record y { n = y.n - m; p = drop m y.p })

  -- The loop, with the bytes that are copied so far. It returns them, the number of missing ones and
  -- the stream.
  unfoldable pub read_loop : ℕ → ℕ → List ℕ → Zio D → Outcome (List ℕ × ℕ × Zio D)
  read_loop fuel zero b z = ok (b, 0, z)
  read_loop zero (suc n) b z = no_fuel
  read_loop (suc fuel) (suc n) b z = copy (read_loop fuel) (suc n) b (refill z)

  -- A round copies a byte at least.
  unfoldable pub lua_z_read : Zio D → ℕ → Outcome (List ℕ × ℕ × Zio D)
  unfolding read_loop
  lua_z_read z n = read_loop n n [] z

-- ===== src/Luasql/Sqlite/Values.antt =====
-- Lua/include/luasql/ls_sqlite3.h: integers of columns, which have 64 bits in SQLite.
use addons_terraria_tshock.Common.{ℕ, ◌+◌, ◌*◌, ◌^◌, ◌≡◌, ap, arith}
use addons_terraria_tshock.Common.Int.{ℤ, pos, to_signed, IsInt, to_signed-to_unsigned}
use addons_terraria_tshock.Common.Outcome.{ok}
use addons_terraria_tshock.Luasql.{number}
use addons_terraria_tshock.Luasql.Sqlite.Api.{Api, integer}
use addons_terraria_tshock.Luasql.Sqlite.Cursor.{push_column}

module _ (api : Api) where
  -- An integer of 32 bits is fetched as it was stored.
  push_column_integer :
      (z : ℤ) → IsInt z → push_column api (integer z) ≡ ok (number (api.to_number z))
  unfolding push_column
  push_column_integer z h = ap (λ y. ok (number (api.to_number y))) (to_signed-to_unsigned z h)

  -- Integers that are not negative and are 2^32 apart are fetched as the same number, although SQLite stores
  -- them apart.
  pub push_column_wraps :
      (n k : ℕ)
      → push_column api (integer (pos (n + k * 2 ^ 32))) ≡ push_column api (integer (pos n))
  unfolding push_column
  push_column_wraps n k = ap (λ (x : ℕ). ok (number (api.to_number (to_signed x)))) (omega arith)

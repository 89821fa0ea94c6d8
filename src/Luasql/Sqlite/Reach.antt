-- ===== src/Luasql/Sqlite/Reach.antt =====
-- Lua/include/luasql/ls_sqlite3.h: what holds after any calls of the driver.

use addons_terraria_tshock.Common.{
  ℕ, ◌^◌, ◌<◌, ltb, ◌==◌, if◌then◌else◌, not, true, false, some, List, [], ◌∷◌, length, get_elem?,
  set, ◌≡◌, refl, arith, sym, ◌∙◌, subst, Bool-cases, inl, inr,
}
use addons_terraria_tshock.Common.Outcome.{ok, err, error}
use addons_terraria_tshock.Common.Runs.{run}
use addons_terraria_tshock.Luasql.Counts.{some_injective, live}
use addons_terraria_tshock.Registry.{lookup, unref}
use addons_terraria_tshock.Luasql.{
  boolean, object, scalar, ConnData, CurData, connection, cursor, check_conn,
}
use addons_terraria_tshock.Luasql.Counts.{live}
use addons_terraria_tshock.Luasql.Refs.{uses}
use addons_terraria_tshock.Luasql.Sqlite.Api.{Api, SqlConn, SqlCur, Driver}
use addons_terraria_tshock.Luasql.Sqlite.Cursor.{stored_at}
use addons_terraria_tshock.Luasql.Sqlite.Connection.{conn_close}
use addons_terraria_tshock.Luasql.Sqlite.Invariant.{Good, opened, connection_open}
use addons_terraria_tshock.Luasql.Sqlite.ConnectionCalls.{opened_zero}
use addons_terraria_tshock.Luasql.Sqlite.Run.{Method, call, initial, run-Good}

module _ (api : Api) where
  open api use {Number, World}

  -- A program of fewer than 2^32 calls on objects that the driver returned, or on anything else, never
  -- crashes: no call follows a null pointer or looks up a table of columns that is not there.
  pub run_survives :
      (w : World) (ms : List (Method Number))
      → length ms < 2 ^ 32
      → (t : Driver api) × (run (call api) ms (initial api w) ≡ some t)
  run_survives w ms b = let (t, e, _) = run-Good api w ms b in (t, e)

  reached :
      (w : World) (ms : List (Method Number)) (t : Driver api)
      → length ms < 2 ^ 32
      → run (call api) ms (initial api w) ≡ some t
      → Good api (length ms) t
  reached w ms t b e =
      let (u, f, good) = run-Good api w ms b in
      subst (Good api (length ms)) (some_injective (sym f ∙ e)) good

  module _ (w : World) (ms : List (Method Number)) (t : Driver api) (b : length ms < 2 ^ 32)
      (e : run (call api) ms (initial api w) ≡ some t) where
    -- After fewer than 2^32 calls, the connection of an open cursor is open, and the cursor's reference
    -- into the registry leads to it, so that it is not collected either.
    pub cursor-IsConnected :
        (a : ℕ) (c : CurData (SqlCur api))
        → get_elem? t.heap a ≡ some (cursor c)
        → c.closed ≡ false
        → (k : ConnData (SqlConn api)) × (get_elem? t.heap c.driver.conn_data ≡ some (connection k))
          × (k.closed ≡ false)
          × (stored_at api t c.conn ≡ some (object c.driver.conn_data))
    cursor-IsConnected a c g open_now =
        let h = reached w ms t b e in
        let (k, f, o) = connection_open api (length ms) t.heap t.registry [] a c h g open_now in
        let (q, v, p, l, (same, _), _, _) = h.held.tied a c g open_now in
        (k, f, o, rw (p, l, same) refl)

    -- After fewer than 2^32 calls, an open connection counts its open cursors exactly.
    pub connection-IsExact :
        (a : ℕ) (k : ConnData (SqlConn api))
        → get_elem? t.heap a ≡ some (connection k)
        → k.closed ≡ false
        → k.driver.cur_counter ≡ opened api a t.heap
    connection-IsExact a k g open_now =
        opened_zero api (length ms) t a k b (reached w ms t b e) g open_now

    -- After fewer than 2^32 calls, every reference that holds a value in the registry is owned by exactly
    -- one field of an open object, and every other reference by none: none leaks, and none is given back
    -- twice.
    pub references-IsExact : (r : ℕ) → uses r t.heap ≡ live (lookup t.registry r)
    references-IsExact r = omega (arith, (reached w ms t b e).held.accounted r)

    -- After fewer than 2^32 calls, closing an open connection is refused, with no change, as long as it has
    -- open cursors; otherwise it is marked closed, its environment is given back, SQLite closes it, and
    -- the result is true.
    pub conn_close_lem :
        (a : ℕ) (k : ConnData (SqlConn api))
        → get_elem? t.heap a ≡ some (connection k)
        → k.closed ≡ false
        → conn_close api (object a) t ≡ (
            if opened api a t.heap == 0
            then (
              ok (scalar (boolean true) ∷ []),
              record {
                heap = set t.heap a (connection (record k { closed = true }));
                registry = unref k.env t.registry;
                world = api.close_db k.driver.sql_conn t.world;
              },
            )
            else (err (error "LuaSQL: there are open cursors"), t))
    unfolding conn_close check_conn
    conn_close_lem a k g open_now = elim (Bool-cases (opened api a t.heap == 0)) [
      | inl z ↦
          rw (g, open_now, connection-IsExact a k g open_now, positive (opened api a t.heap), z)
            refl
      | inr z ↦
          rw (g, open_now, connection-IsExact a k g open_now, positive (opened api a t.heap), z)
            refl
    ]
      where
        positive : (n : ℕ) → ltb 0 n ≡ not (n == 0)
        positive n = ground arith

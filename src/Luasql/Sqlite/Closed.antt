-- ===== src/Luasql/Sqlite/Closed.antt =====
-- Lua/include/luasql/ls_sqlite3.h: calls on objects that are closed.
use addons_terraria_tshock.Common.{
  ℕ, true, false, Option, some, List, [], ◌∷◌, get_elem?, ◌≡◌, refl,
}
use addons_terraria_tshock.Common.Outcome.{ok, err, argerror}
use addons_terraria_tshock.Luasql.{
  Scalar, Value, boolean, scalar, object, connection, cursor, ConnData, CurData, check_cur,
  check_conn, getcursor, getconnection,
}
use addons_terraria_tshock.Luasql.Sqlite.Api.{Api, SqlConn, SqlCur, Driver}
use addons_terraria_tshock.Luasql.Sqlite.Cursor.{
  cur_gc, cur_close, cur_getcolnames, cur_getcoltypes, cur_fetch,
}
use addons_terraria_tshock.Luasql.Sqlite.Connection.{
  conn_gc, conn_close, conn_execute, conn_commit, conn_rollback, conn_getlastautoid,
  conn_setautocommit,
}

module _ (api : Api) (s : Driver api) (a : ℕ) where
  open api use {Number}

  -- On a closed cursor, fetch, getcolnames and getcoltypes are errors, close returns false, and the
  -- collector does nothing. None of them changes the state.
  closed_cursor_lem :
      (c : CurData (SqlCur api)) (target : Option (List (Scalar Number × Scalar Number)))
      (opts : List ℕ)
      → get_elem? s.heap a ≡ some (cursor c)
      → c.closed ≡ true
      → (cur_fetch api (object a) target opts s ≡ (err (argerror 1 "LuaSQL: cursor is closed"), s))
        × (cur_getcolnames api (object a) s ≡ (err (argerror 1 "LuaSQL: cursor is closed"), s))
        × (cur_getcoltypes api (object a) s ≡ (err (argerror 1 "LuaSQL: cursor is closed"), s))
        × (cur_close api (object a) s ≡ (ok (scalar (boolean false) ∷ []), s))
        × (cur_gc api (object a) s ≡ (ok [], s))
  unfolding cur_fetch cur_getcolnames cur_getcoltypes cur_close cur_gc getcursor check_cur
  closed_cursor_lem c target opts g e =
      (rw (g, e) refl, rw (g, e) refl, rw (g, e) refl, rw (g, e) refl, rw (g, e) refl)

  -- On a closed connection, execute, commit, rollback, getlastautoid and setautocommit are errors, close
  -- returns false, and the collector does nothing. None of them changes the state.
  closed_connection_lem :
      (k : ConnData (SqlConn api)) (statement : List ℕ) (on : Value Number)
      → get_elem? s.heap a ≡ some (connection k)
      → k.closed ≡ true
      → (conn_execute api (object a) statement s
          ≡ (err (argerror 1 "LuaSQL: connection is closed"), s))
        × (conn_commit api (object a) s ≡ (err (argerror 1 "LuaSQL: connection is closed"), s))
        × (conn_rollback api (object a) s ≡ (err (argerror 1 "LuaSQL: connection is closed"), s))
        × (conn_getlastautoid api (object a) s
            ≡ (err (argerror 1 "LuaSQL: connection is closed"), s))
        × (conn_setautocommit api (object a) on s
            ≡ (err (argerror 1 "LuaSQL: connection is closed"), s))
        × (conn_close api (object a) s ≡ (ok (scalar (boolean false) ∷ []), s))
        × (conn_gc api (object a) s ≡ (ok [], s))
  unfolding conn_execute conn_commit conn_rollback conn_getlastautoid conn_setautocommit conn_close
      conn_gc getconnection check_conn
  closed_connection_lem k statement on g e = (
    rw (g, e) refl,
    rw (g, e) refl,
    rw (g, e) refl,
    rw (g, e) refl,
    rw (g, e) refl,
    rw (g, e) refl,
    rw (g, e) refl,
  )

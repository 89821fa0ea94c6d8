-- ===== src/Luasql/Sqlite/Cursor.antt =====
-- Lua/include/luasql/ls_sqlite3.h: cursors.
use Prim.Native.String.{String}
use addons_terraria_tshock.Common.{
  ℕ, zero, suc, ◌+◌, ◌-◌, ◌%◌, ◌^◌, if◌then◌else◌, Bool, true, false, not, Option, none, some, List,
  [], ◌∷◌, ◌++◌, map,
}
use addons_terraria_tshock.Common.Int.{to_signed, to_unsigned}
use addons_terraria_tshock.Common.Outcome.{Outcome, ok, err, fault, argerror, error}
use addons_terraria_tshock.Common.Outcome
use addons_terraria_tshock.Common.Action.{Action, ◌>>=◌, ◌>>◌, pure, gets, unless, lift, or_crash}
use addons_terraria_tshock.Registry.{lookup}
use addons_terraria_tshock.Luasql.{
  Scalar, nil, boolean, number, string, Value, scalar, object, columns, table, ConnData, CurData,
  connection, cursor, conn_in, to_object, check_cur, getcursor, put, calls, drop_refs, new_userdata,
  ref_value, faildirect,
}
use addons_terraria_tshock.Luasql.Rows.{has, by_number, by_name, names_in}
use addons_terraria_tshock.Luasql.Sqlite.Api.{
  Api, SqlConn, SqlCur, Driver, Call, StepResult, row, done, failed, Column, integer, float, text,
  blob, null, unrecognized,
}

abbrev pub cursor_name : String
cursor_name = "SQLite3 cursor expected"

module _ (api : Api) where
  open api use {Number, World, Stmt, Conn}

  abbrev pub get_cur : Value Number → Action (Driver api) (ℕ × CurData (SqlCur api))
  get_cur v = getcursor cursor_name "LuaSQL: cursor is closed" v

  -- The value that a field refers to, and the connection that it is.
  abbrev pub stored_at : Driver api → Option ℕ → Option (Value Number)
  stored_at s none = none
  stored_at s (some r) = lookup s.registry r

  abbrev pub conn_of : Driver api → Option (Value Number) → Option (ℕ × ConnData (SqlConn api))
  conn_of s none = none
  conn_of s (some v) = to_object conn_in s v

  -- The counter is an `unsigned int`.
  abbrev pub count_down : ConnData (SqlConn api) → ConnData (SqlConn api)
  count_down k = record k {
    driver = record k.driver { cur_counter = (k.driver.cur_counter + 2 ^ 32 - 1) % 2 ^ 32 };
  }

  abbrev pub count_up : ConnData (SqlConn api) → ConnData (SqlConn api)
  count_up k = record k {
    driver = record k.driver { cur_counter = (k.driver.cur_counter + 1) % 2 ^ 32 };
  }

  abbrev pub nullified : CurData (SqlCur api) → CurData (SqlCur api)
  nullified c = record c { closed = true; driver = record c.driver { sql_vm = none } }

  -- `cur_nullify` of the cursor at address a. Without a connection in the registry it would write
  -- through a null pointer.
  unfoldable pub cur_nullify : ℕ → CurData (SqlCur api) → Action (Driver api) (Unit {0})
  cur_nullify a c = do
    put a (cursor (nullified c))
    (b, k) ← or_crash (λ s. conn_of s (stored_at s c.conn))
    put b (connection (count_down k))
    drop_refs c

  -- The two returns of `finalize`: the message is that of the connection of `conn_data_sqlite`.
  abbrev pub finalized : ℕ → CurData (SqlCur api) → Bool → Call api
  finalized a c true = do cur_nullify a c; pure (scalar nil ∷ [])
  finalized a c false = do
    (b, k) ← or_crash (λ s. conn_of s (some (object c.driver.conn_data)))
    msg ← gets (λ s. api.errmsg k.driver.sql_conn s.world)
    cur_nullify a c
    pure (faildirect msg)

  unfoldable pub finalize : ℕ → CurData (SqlCur api) → Call api
  finalize a c = do fine ← calls (api.finalize_vm c.driver.sql_vm); finalized a c fine

  -- `push_column`: `lua_pushinteger` takes 32 bits.
  unfoldable pub push_column : Column Number → Outcome (Scalar Number)
  push_column (integer z) = ok (number (api.to_number (to_signed (to_unsigned z))))
  push_column (float n) = ok (number n)
  push_column (text t) = ok (string t)
  push_column (blob t) = ok (string t)
  push_column null = ok nil
  push_column unrecognized = err (error "LuaSQL: Unrecognized column type")

  -- The columns from i on.
  unfoldable pub row_values : (ℕ → Column Number) → ℕ → ℕ → Outcome (List (Scalar Number))
  unfolding push_column
  row_values column zero i = ok []
  row_values column (suc n) i =
      Outcome.◌>>=◌ (push_column (column i))
        (λ v. Outcome.◌>>=◌ (row_values column n (i + 1)) (λ vs. ok (v ∷ vs)))

  -- The two ways to write a row to the table t.
  unfoldable pub with_numbers :
      CurData (SqlCur api)
      → Stmt
      → List ℕ
      → List (Scalar Number × Scalar Number)
      → Action (Driver api) (List (Scalar Number × Scalar Number))
  unfolding row_values
  with_numbers c vm opts t =
      if has b'n' opts
      then (do
        w ← gets (λ s. s.world)
        vs ← lift (row_values (λ i. api.column vm i w) c.numcols 0)
        pure (t ++ by_number api.to_number vs 0))
      else pure t

  unfoldable pub with_names :
      CurData (SqlCur api)
      → Stmt
      → List ℕ
      → List (Scalar Number × Scalar Number)
      → Action (Driver api) (List (Scalar Number × Scalar Number))
  unfolding row_values
  with_names c vm opts t =
      if has b'a' opts
      then (do
        names ← or_crash (λ s. names_in (stored_at s c.colnames))
        w ← gets (λ s. s.world)
        vs ← lift (row_values (λ i. api.column vm i w) c.numcols 0)
        rows ← lift (by_name names vs)
        pure (t ++ rows))
      else pure t

  -- The row is copied to the table that is the second argument, or to results.
  unfoldable pub fetch_row :
      CurData (SqlCur api)
      → Stmt
      → Option (List (Scalar Number × Scalar Number))
      → List ℕ
      → Call api
  unfolding row_values with_numbers with_names
  fetch_row c vm none opts = do
    w ← gets (λ s. s.world)
    vs ← lift (row_values (λ i. api.column vm i w) c.numcols 0)
    pure (map scalar vs)
  fetch_row c vm (some t) opts = do
    t1 ← with_numbers c vm opts t
    t2 ← with_names c vm opts t1
    pure (table t2 ∷ [])

  abbrev pub after_step :
      ℕ
      → CurData (SqlCur api)
      → Stmt
      → Option (List (Scalar Number × Scalar Number))
      → List ℕ
      → StepResult
      → Call api
  after_step a c vm target opts row = fetch_row c vm target opts
  after_step a c vm target opts done = finalize a c
  after_step a c vm target opts failed = finalize a c

  abbrev pub fetch_from :
      ℕ
      → CurData (SqlCur api)
      → Option Stmt
      → Option (List (Scalar Number × Scalar Number))
      → List ℕ
      → Call api
  fetch_from a c none target opts = pure []
  fetch_from a c (some vm) target opts = do
    res ← calls (api.step vm)
    after_step a c vm target opts res

  -- The options are those of `luaL_optstring(L, 3, "n")`.
  unfoldable pub cur_fetch :
      Value Number → Option (List (Scalar Number × Scalar Number)) → List ℕ → Call api
  unfolding fetch_row finalize
  cur_fetch v target opts = do (a, c) ← get_cur v; fetch_from a c c.driver.sql_vm target opts

  abbrev pub close_open : ℕ → CurData (SqlCur api) → Action (Driver api) (Unit {0})
  close_open a c = do fine ← calls (api.finalize_vm c.driver.sql_vm); cur_nullify a c

  unfoldable pub cur_gc : Value Number → Call api
  cur_gc v = do (a, c) ← check_cur cursor_name v; unless c.closed (close_open a c); pure []

  unfoldable pub cur_close : Value Number → Call api
  cur_close v = do
    (a, c) ← check_cur cursor_name v
    unless c.closed (close_open a c)
    pure (scalar (boolean (not c.closed)) ∷ [])

  abbrev to_result : Option (Value Number) → List (Value Number)
  to_result none = scalar nil ∷ []
  to_result (some v) = v ∷ []

  unfoldable pub cur_getcolnames : Value Number → Call api
  cur_getcolnames v = do (a, c) ← get_cur v; gets (λ s. to_result (stored_at s c.colnames))

  unfoldable pub cur_getcoltypes : Value Number → Call api
  cur_getcoltypes v = do (a, c) ← get_cur v; gets (λ s. to_result (stored_at s c.coltypes))

  -- The tables of names and of types.
  abbrev text_or_nil : Option (List ℕ) → Scalar Number
  text_or_nil none = nil
  text_or_nil (some t) = string t

  abbrev pub column_texts : (ℕ → Option (List ℕ)) → ℕ → ℕ → List (Scalar Number)
  column_texts f zero i = []
  column_texts f (suc n) i = text_or_nil (f i) ∷ column_texts f n (i + 1)

  -- `create_cursor`, for the connection `self` with the data k at address a. The references of the new
  -- cursor are LUA_NOREF before they are taken, and no call between looks.
  unfoldable pub create_cursor : Value Number → ℕ → ConnData (SqlConn api) → Stmt → ℕ → Call api
  create_cursor self a k vm numcols = do
    put a (connection (count_up k))
    conn ← ref_value self
    w ← gets (λ s. s.world)
    names ← ref_value (columns (column_texts (λ i. api.column_name vm i w) numcols 0))
    types ← ref_value (columns (column_texts (λ i. api.column_decltype vm i w) numcols 0))
    b ← new_userdata (
        cursor (record {
          closed = false;
          conn = some conn;
          numcols = numcols;
          colnames = some names;
          coltypes = some types;
          driver = record { conn_data = a; sql_vm = some vm };
        }))
    pure (object b ∷ [])

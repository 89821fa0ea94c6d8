-- ===== src/Luasql/Sqlite/Connection.antt =====
-- Lua/include/luasql/ls_sqlite3.h: environments and connections.
use Prim.Native.String.{String}
use addons_terraria_tshock.Common.{
  ℕ, zero, suc, if◌then◌else◌, Bool, true, false, not, ltb, Option, none, some, List, [], ◌∷◌, ◌++◌,
}
use addons_terraria_tshock.Common.Outcome.{error}
use addons_terraria_tshock.Common.Action.{
  Action, ◌>>=◌, ◌>>◌, pure, raise, raise_if, gets, modify, unless,
}
use addons_terraria_tshock.Luasql.{
  nil, boolean, number, string, Value, scalar, ConnData, connection, to_boolean, check_conn,
  getconnection, getenvironment, put, calls, unref_value, faildirect, create_connection,
}
use addons_terraria_tshock.Luasql.Sqlite.Api.{
  Api, SqlConn, Driver, Call, StepResult, row, done, failed,
}
use addons_terraria_tshock.Luasql.Sqlite.Cursor.{create_cursor}

abbrev pub conn_name : String
conn_name = "SQLite3 connection expected"

abbrev pub env_name : String
env_name = "SQLite3 environment expected"

-- The statements, in bytes: `COMMIT`, `ROLLBACK`, `BEGIN` and `;`.
abbrev commit_sql : List ℕ
commit_sql = b'C' ∷ b'O' ∷ b'M' ∷ b'M' ∷ b'I' ∷ b'T' ∷ []

abbrev rollback_sql : List ℕ
rollback_sql = b'R' ∷ b'O' ∷ b'L' ∷ b'L' ∷ b'B' ∷ b'A' ∷ b'C' ∷ b'K' ∷ []

abbrev pub begin_sql : List ℕ
begin_sql = b'B' ∷ b'E' ∷ b'G' ∷ b'I' ∷ b'N' ∷ []

module _ (api : Api) where
  open api use {Number, World, Stmt, Conn}

  abbrev pub get_conn : Value Number → Action (Driver api) (ℕ × ConnData (SqlConn api))
  get_conn v = getconnection conn_name "LuaSQL: connection is closed" v

  -- The part of `conn_gc` for an open connection.
  abbrev pub close_idle : ℕ → ConnData (SqlConn api) → Action (Driver api) (Unit {0})
  close_idle a k = do
    raise_if (ltb 0 k.driver.cur_counter) (error "LuaSQL: there are open cursors")
    put a (connection (record k { closed = true }))
    unref_value k.env
    modify (λ s. record s { world = api.close_db k.driver.sql_conn s.world })

  unfoldable pub conn_gc : Value Number → Call api
  conn_gc v = do (a, k) ← check_conn conn_name v; unless k.closed (close_idle a k); pure []

  unfoldable pub conn_close : Value Number → Call api
  conn_close v = do
    (a, k) ← check_conn conn_name v
    unless k.closed (close_idle a k)
    pure (scalar (boolean (not k.closed)) ∷ [])

  abbrev escaped : Option (List ℕ) → List (Value Number)
  escaped none = scalar nil ∷ []
  escaped (some t) = scalar (string t) ∷ []

  -- It does not look at its first argument.
  unfoldable pub conn_escape : List ℕ → Call api
  conn_escape from = pure (escaped (api.mprintf_q from))

  -- What `conn_execute` does with the first result of a statement: a query gets a cursor.
  abbrev pub executed : Value Number → ℕ → ConnData (SqlConn api) → Stmt → ℕ → StepResult → Call api
  executed self a k vm numcols row = do
    modify (λ s. record s { world = api.reset vm s.world })
    create_cursor api self a k vm numcols
  executed self a k vm zero done = do
    fine ← calls (api.finalize_vm (some vm))
    gets (λ s. scalar (number (api.to_number (api.changes k.driver.sql_conn s.world))) ∷ [])
  executed self a k vm (suc n) done = do
    modify (λ s. record s { world = api.reset vm s.world })
    create_cursor api self a k vm (suc n)
  executed self a k vm numcols failed = do
    msg ← gets (λ s. api.errmsg k.driver.sql_conn s.world)
    fine ← calls (api.finalize_vm (some vm))
    pure (faildirect msg)

  abbrev pub prepared : Value Number → ℕ → ConnData (SqlConn api) → Option Stmt → Call api
  prepared self a k none = gets (λ s. faildirect (api.errmsg k.driver.sql_conn s.world))
  prepared self a k (some vm) = do
    res ← calls (api.step vm)
    numcols ← gets (λ s. api.column_count vm s.world)
    executed self a k vm numcols res

  unfoldable pub conn_execute : Value Number → List ℕ → Call api
  conn_execute v statement = do
    (a, k) ← get_conn v
    vm ← calls (api.prepare k.driver.sql_conn statement)
    prepared v a k vm

  -- The answer to `sqlite3_exec`.
  abbrev pub answer : Option (List ℕ) → List (Value Number)
  answer none = scalar (boolean true) ∷ []
  answer (some msg) = faildirect msg

  unfoldable pub conn_commit : Value Number → Call api
  conn_commit v = do
    (a, k) ← get_conn v
    let sql = if k.driver.auto_commit then commit_sql else commit_sql ++ (b';' ∷ begin_sql)
    res ← calls (api.exec k.driver.sql_conn sql)
    pure (answer res)

  unfoldable pub conn_rollback : Value Number → Call api
  conn_rollback v = do
    (a, k) ← get_conn v
    let sql = if k.driver.auto_commit then rollback_sql else rollback_sql ++ (b';' ∷ begin_sql)
    res ← calls (api.exec k.driver.sql_conn sql)
    pure (answer res)

  unfoldable pub conn_getlastautoid : Value Number → Call api
  conn_getlastautoid v = do
    (a, k) ← get_conn v
    gets (λ s.
        scalar (number (api.to_number (api.last_insert_rowid k.driver.sql_conn s.world))) ∷ [])

  abbrev pub with_commit : ConnData (SqlConn api) → Bool → ConnData (SqlConn api)
  with_commit k b = record k { driver = record k.driver { auto_commit = b } }

  -- The flag is set before the statement runs, and stays when it fails. The message of SQLite, which
  -- the error ends with, is left out.
  abbrev pub began : Option (List ℕ) → Call api
  began none = pure (scalar (boolean true) ∷ [])
  began (some msg) = raise (error "LuaSQL: %s")

  abbrev pub set_commit : ℕ → ConnData (SqlConn api) → Bool → Call api
  set_commit a k true = do
    put a (connection (with_commit k true))
    res ← calls (api.exec k.driver.sql_conn rollback_sql)
    pure (scalar (boolean true) ∷ [])
  set_commit a k false = do
    put a (connection (with_commit k false))
    res ← calls (api.exec k.driver.sql_conn begin_sql)
    began res

  unfoldable pub conn_setautocommit : Value Number → Value Number → Call api
  conn_setautocommit v on = do (a, k) ← get_conn v; set_commit a k (to_boolean on)

  -- The connection that `sqlite3_open` gave, and the timeout that is the third argument.
  abbrev pub connected : Value Number → Option Number → Bool × Conn → Call api
  connected env busy (false, conn) = do
    msg ← gets (λ s. api.errmsg conn s.world)
    modify (λ s. record s { world = api.close_db conn s.world })
    pure (faildirect msg)
  connected env none (true, conn) =
      create_connection env (record { auto_commit = true; cur_counter = 0; sql_conn = conn })
  connected env (some t) (true, conn) = do
    modify (λ s. record s { world = api.busy_timeout conn t s.world })
    create_connection env (record { auto_commit = true; cur_counter = 0; sql_conn = conn })

  unfoldable pub env_connect : Value Number → List ℕ → Option Number → Call api
  env_connect v sourcename busy = do
    (a, e) ← getenvironment env_name "LuaSQL: environment is closed" v
    conn ← calls (api.open_db sourcename)
    connected v busy conn

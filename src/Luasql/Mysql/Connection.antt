-- ===== src/Luasql/Mysql/Connection.antt =====
-- Lua/include/luasql/ls_mysql.h: environments and connections.
use Prim.Native.String.{String}
use addons_terraria_tshock.Common.{
  ℕ, zero, suc, Bool, true, false, not, Option, none, some, List, [], ◌∷◌,
}
use addons_terraria_tshock.Common.Int.{ℤ, pos}
use addons_terraria_tshock.Common.Action.{Action, ◌>>=◌, ◌>>◌, pure, gets, unless, or_crash}
use addons_terraria_tshock.Luasql.{
  boolean, number, string, Value, scalar, ConnData, connection, to_boolean, check_conn,
  getconnection, getenvironment, put, calls, unref_value, faildirect, failmsg, create_connection,
}
use addons_terraria_tshock.Luasql.Mysql.Api.{Api, Driver, Call}
use addons_terraria_tshock.Luasql.Mysql.Cursor.{create_cursor, runs}
use addons_terraria_tshock.Luasql.Mysql.Message.{error_msg, strncpy, read_string}

abbrev pub conn_name : String
conn_name = "MySQL connection expected"

abbrev pub env_name : String
env_name = "MySQL environment expected"

-- The messages, in bytes: `error executing query. MySQL: `, `error retrieving result. MySQL: `,
-- `error connecting: Out of memory.` and `error connecting to database. MySQL: `.
abbrev executing : List ℕ
executing =
    b'e' ∷ b'r' ∷ b'r' ∷ b'o' ∷ b'r' ∷ b' ' ∷ b'e' ∷ b'x' ∷ b'e' ∷ b'c' ∷ b'u' ∷ b't' ∷ b'i' ∷ b'n'
    ∷ b'g' ∷ b' ' ∷ b'q' ∷ b'u' ∷ b'e' ∷ b'r' ∷ b'y' ∷ b'.' ∷ b' ' ∷ b'M' ∷ b'y' ∷ b'S' ∷ b'Q'
    ∷ b'L' ∷ b':' ∷ b' ' ∷ []

abbrev retrieving : List ℕ
retrieving =
    b'e' ∷ b'r' ∷ b'r' ∷ b'o' ∷ b'r' ∷ b' ' ∷ b'r' ∷ b'e' ∷ b't' ∷ b'r' ∷ b'i' ∷ b'e' ∷ b'v' ∷ b'i'
    ∷ b'n' ∷ b'g' ∷ b' ' ∷ b'r' ∷ b'e' ∷ b's' ∷ b'u' ∷ b'l' ∷ b't' ∷ b'.' ∷ b' ' ∷ b'M' ∷ b'y'
    ∷ b'S' ∷ b'Q' ∷ b'L' ∷ b':' ∷ b' ' ∷ []

abbrev no_memory : List ℕ
no_memory =
    b'e' ∷ b'r' ∷ b'r' ∷ b'o' ∷ b'r' ∷ b' ' ∷ b'c' ∷ b'o' ∷ b'n' ∷ b'n' ∷ b'e' ∷ b'c' ∷ b't' ∷ b'i'
    ∷ b'n' ∷ b'g' ∷ b':' ∷ b' ' ∷ b'O' ∷ b'u' ∷ b't' ∷ b' ' ∷ b'o' ∷ b'f' ∷ b' ' ∷ b'm' ∷ b'e'
    ∷ b'm' ∷ b'o' ∷ b'r' ∷ b'y' ∷ b'.' ∷ []

abbrev pub connecting : List ℕ
connecting =
    b'e' ∷ b'r' ∷ b'r' ∷ b'o' ∷ b'r' ∷ b' ' ∷ b'c' ∷ b'o' ∷ b'n' ∷ b'n' ∷ b'e' ∷ b'c' ∷ b't' ∷ b'i'
    ∷ b'n' ∷ b'g' ∷ b' ' ∷ b't' ∷ b'o' ∷ b' ' ∷ b'd' ∷ b'a' ∷ b't' ∷ b'a' ∷ b'b' ∷ b'a' ∷ b's'
    ∷ b'e' ∷ b'.' ∷ b' ' ∷ b'M' ∷ b'y' ∷ b'S' ∷ b'Q' ∷ b'L' ∷ b':' ∷ b' ' ∷ []

module _ (api : Api) where
  open api use {Number, World, Result, Conn}

  abbrev pub get_conn : Value Number → Action (Driver api) (ℕ × ConnData Conn)
  get_conn v = getconnection conn_name "connection is closed" v

  abbrev pub close_open : ℕ → ConnData Conn → Action (Driver api) (Unit {0})
  close_open a k = do
    put a (connection (record k { closed = true }))
    unref_value k.env
    runs api (api.close_conn k.driver)

  unfoldable pub conn_gc : Value Number → Call api
  conn_gc v = do (a, k) ← check_conn conn_name v; unless k.closed (close_open a k); pure []

  unfoldable pub conn_close : Value Number → Call api
  conn_close v = do
    (a, k) ← check_conn conn_name v
    unless k.closed (close_open a k)
    pure (scalar (boolean (not k.closed)) ∷ [])

  -- `malloc` does not fail.
  unfoldable pub escape_string : Value Number → List ℕ → Call api
  escape_string v from = do
    (a, k) ← get_conn v
    gets (λ s. scalar (string (api.real_escape_string k.driver from s.world)) ∷ [])

  -- What `conn_execute` does with the result of a statement, and the number of columns.
  abbrev pub stored : Value Number → ConnData Conn → Option Result → ℕ → Call api
  stored v k (some res) cols = create_cursor api v res cols
  stored v k none zero =
      gets (λ s. scalar (number (api.to_number (pos (api.affected_rows k.driver s.world)))) ∷ [])
  stored v k none (suc n) = gets (λ s. failmsg retrieving (api.errmsg k.driver s.world))

  abbrev pub queried : Value Number → ConnData Conn → Bool → Call api
  queried v k true = gets (λ s. failmsg executing (api.errmsg k.driver s.world))
  queried v k false = do
    res ← calls (api.store_result k.driver)
    cols ← gets (λ s. api.field_count k.driver s.world)
    stored v k res cols

  unfoldable pub conn_execute : Value Number → List ℕ → Call api
  conn_execute v statement = do
    (a, k) ← get_conn v
    failed ← calls (api.real_query k.driver statement)
    queried v k failed

  unfoldable pub conn_commit : Value Number → Call api
  conn_commit v = do
    (a, k) ← get_conn v
    failed ← calls (api.commit_conn k.driver)
    pure (scalar (boolean (not failed)) ∷ [])

  unfoldable pub conn_rollback : Value Number → Call api
  conn_rollback v = do
    (a, k) ← get_conn v
    failed ← calls (api.rollback_conn k.driver)
    pure (scalar (boolean (not failed)) ∷ [])

  unfoldable pub conn_setautocommit : Value Number → Value Number → Call api
  conn_setautocommit v on = do
    (a, k) ← get_conn v
    runs api (api.autocommit k.driver (to_boolean on))
    pure (scalar (boolean true) ∷ [])

  unfoldable pub conn_getlastautoid : Value Number → Call api
  conn_getlastautoid v = do
    (a, k) ← get_conn v
    gets (λ s. scalar (number (api.to_number (pos (api.insert_id k.driver s.world)))) ∷ [])

  -- What `mysql_real_connect` gave.
  abbrev pub connected : Value Number → Conn → Bool → Call api
  connected env conn true = create_connection env conn
  connected env conn false = do
    buffer ← or_crash (λ s. strncpy error_msg (api.errmsg conn s.world) 99)
    runs api (api.close_conn conn)
    text ← or_crash (λ s. read_string buffer)
    pure (failmsg connecting text)

  abbrev pub inited :
      Value Number
      → List ℕ
      → Option (List ℕ)
      → Option (List ℕ)
      → Option (List ℕ)
      → ℤ
      → Option Conn
      → Call api
  inited env sourcename username password host port none = pure (faildirect no_memory)
  inited env sourcename username password host port (some conn) = do
    fine ← calls (api.real_connect conn host username password sourcename port)
    connected env conn fine

  unfoldable pub env_connect :
      Value Number → List ℕ → Option (List ℕ) → Option (List ℕ) → Option (List ℕ) → ℤ → Call api
  unfolding strncpy read_string
  env_connect v sourcename username password host port = do
    (a, e) ← getenvironment env_name "environment is closed" v
    conn ← calls api.init
    inited v sourcename username password host port conn

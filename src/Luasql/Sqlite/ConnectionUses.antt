-- ===== src/Luasql/Sqlite/ConnectionUses.antt =====
-- Lua/include/luasql/ls_sqlite3.h: the calls that create objects or use a connection never crash, and
-- keep the invariant.

use addons_terraria_tshock.Common.{
  ℕ, zero, suc, Bool, true, false, Option, none, some, List, [], get_elem?, set, ◌≡◌, refl, arith,
}
use addons_terraria_tshock.Common.Triple.{Safe, Ends-unless}
use addons_terraria_tshock.Registry.{ref}
use addons_terraria_tshock.Luasql.{
  Value, object, environment, connection, ConnData, EnvData, to_boolean, create_connection,
  create_environment, env_gc, env_close,
}
use addons_terraria_tshock.Luasql.Checks.{Ends-getconnection, Ends-getenvironment, Ends-check_env}
use addons_terraria_tshock.Luasql.Refs.Objects.{
  Held-connect, Held-environment, Held-new_environment, Held-connection,
}
use addons_terraria_tshock.Luasql.Sqlite.Api.{Api, SqlConn, Driver, StepResult, row, done, failed}
use addons_terraria_tshock.Luasql.Sqlite.Connection.{
  conn_name, env_name, executed, prepared, conn_execute, conn_commit, conn_rollback,
  conn_getlastautoid, set_commit, with_commit, began, conn_setautocommit, begin_sql, connected,
  env_connect, conn_escape,
}
use addons_terraria_tshock.Luasql.Sqlite.Invariant.{Served, Good}
use addons_terraria_tshock.Luasql.Sqlite.Creation.{Safe-create_cursor}
use addons_terraria_tshock.Luasql.Sqlite.Updates.{Sound-set, Sound-append}

module _ (api : Api) where
  open api use {Number, World, Stmt, Conn}

  pub Good-suc : (n : ℕ) (s : Driver api) → Good api n s → Good api (suc n) s
  Good-suc n s h = record { small = omega (arith, h.small); held = h.held; balanced = h.balanced }

  module _ (n : ℕ) (v : Value Number) (a : ℕ) (k : ConnData (SqlConn api)) (e : v ≡ object a)
      (open_now : k.closed ≡ false) where
    Safe-executed :
        (s : Driver api) (vm : Stmt) (numcols : ℕ) (res : StepResult)
        → Good api n s
        → get_elem? s.heap a ≡ some (connection k)
        → Safe (Good api (suc n)) (executed api v a k vm numcols res s)
    Safe-executed s vm numcols row h g =
        Safe-create_cursor api n (record s { world = api.reset vm s.world }) v a k vm numcols h e g
          open_now
    Safe-executed s vm zero done h g = Good-suc n s h
    Safe-executed s vm (suc m) done h g =
        Safe-create_cursor api n (record s { world = api.reset vm s.world }) v a k vm (suc m) h e g
          open_now
    Safe-executed s vm numcols failed h g = Good-suc n s h

    Safe-prepared :
        (s : Driver api) (vm : Option Stmt)
        → Good api n s
        → get_elem? s.heap a ≡ some (connection k)
        → Safe (Good api (suc n)) (prepared api v a k vm s)
    Safe-prepared s none h g = Good-suc n s h
    Safe-prepared s (some vm) h g =
        let (res, w) = api.step vm s.world in
        Safe-executed (record s { world = w }) vm (api.column_count vm w) res h g

    Good-with_commit :
        (s : Driver api) (b : Bool)
        → Good api n s
        → get_elem? s.heap a ≡ some (connection k)
        → Good api n (record s { heap = set s.heap a (connection (with_commit api k b)) })
    Good-with_commit s b h g =
        Sound-set api n s.heap s.registry [] [] a (connection k) (connection (with_commit api k b))
          h g (Held-connection (Served api) a k (with_commit api k b) [] h.held g refl refl)
          (λ y. refl) (λ t. t)

    Safe-began :
        (s : Driver api) (res : Option (List ℕ))
        → Good api n s
        → Safe (Good api n) (began api res s)
    Safe-began s none h = h
    Safe-began s (some msg) h = h

    Safe-set_commit :
        (s : Driver api) (b : Bool)
        → Good api n s
        → get_elem? s.heap a ≡ some (connection k)
        → Safe (Good api n) (set_commit api a k b s)
    Safe-set_commit s true h g = Good-with_commit s true h g
    Safe-set_commit s false h g =
        let (res, w) = api.exec k.driver.sql_conn begin_sql s.world in
        Safe-began
          (record s { heap = set s.heap a (connection (with_commit api k false)); world = w }) res
          (Good-with_commit s false h g)

  module _ (n : ℕ) (s : Driver api) (v : Value Number) (h : Good api n s) where
    pub Safe-conn_execute :
        (statement : List ℕ) → Safe (Good api (suc n)) (conn_execute api v statement s)
    unfolding conn_execute
    Safe-conn_execute statement =
        Ends-getconnection (Good api (suc n)) (λ _. Good api (suc n)) conn_name _ v s
          (Good-suc n s h) _
          (λ p at e.
            let (vm, w) = api.prepare p.1.driver.sql_conn statement s.world in
            Safe-prepared n v p.0 p.1 at.0 e (record s { world = w }) vm h at.1)

    pub Safe-conn_commit : Safe (Good api n) (conn_commit api v s)
    unfolding conn_commit
    Safe-conn_commit =
        Ends-getconnection (Good api n) (λ _. Good api n) conn_name _ v s h _ (λ p at e. h)

    pub Safe-conn_rollback : Safe (Good api n) (conn_rollback api v s)
    unfolding conn_rollback
    Safe-conn_rollback =
        Ends-getconnection (Good api n) (λ _. Good api n) conn_name _ v s h _ (λ p at e. h)

    pub Safe-conn_getlastautoid : Safe (Good api n) (conn_getlastautoid api v s)
    unfolding conn_getlastautoid
    Safe-conn_getlastautoid =
        Ends-getconnection (Good api n) (λ _. Good api n) conn_name _ v s h _ (λ p at e. h)

    pub Safe-conn_setautocommit :
        (on : Value Number) → Safe (Good api n) (conn_setautocommit api v on s)
    unfolding conn_setautocommit
    Safe-conn_setautocommit on =
        Ends-getconnection (Good api n) (λ _. Good api n) conn_name _ v s h _
          (λ p at e. Safe-set_commit n v p.0 p.1 at.0 e s (to_boolean on) h at.1)

    pub Safe-conn_escape : (from : List ℕ) → Safe (Good api n) (conn_escape api from s)
    unfolding conn_escape
    Safe-conn_escape from = h

    -- A new connection, which counts no cursors.
    Good-create_connection :
        (k : SqlConn api) (w : World)
        → k.cur_counter ≡ 0
        → Safe (Good api (suc n)) (create_connection v k (record s { world = w }))
    unfolding create_connection
    Good-create_connection k w e =
        Sound-append api n s.heap s.registry (ref v s.registry).1 [] []
          (connection (record { closed = false; env = some (ref v s.registry).0; driver = k })) h
          (Held-connect (Served api) v k h.held) (λ y. refl) e

    Safe-connected :
        (busy : Option Number) (w : World) (conn : Bool × Conn)
        → Safe (Good api (suc n)) (connected api v busy conn (record s { world = w }))
    Safe-connected busy w (false, conn) = Good-suc n s h
    Safe-connected none w (true, conn) = Good-create_connection _ w refl
    Safe-connected (some t) w (true, conn) =
        Good-create_connection _ (api.busy_timeout conn t w) refl

    pub Safe-env_connect :
        (name : List ℕ) (busy : Option Number)
        → Safe (Good api (suc n)) (env_connect api v name busy s)
    unfolding env_connect
    Safe-env_connect name busy =
        Ends-getenvironment (Good api (suc n)) (λ _. Good api (suc n)) env_name _ v s
          (Good-suc n s h) _
          (λ p at e. let (conn, w) = api.open_db name s.world in Safe-connected busy w conn)

    Good-environment :
        (a : ℕ) (e d : EnvData)
        → get_elem? s.heap a ≡ some (environment e)
        → Good api n (record s { heap = set s.heap a (environment d) })
    Good-environment a e d g =
        Sound-set api n s.heap s.registry [] [] a (environment e) (environment d) h g
          (Held-environment (Served api) a e d h.held g) (λ y. refl) (λ z. z)

    pub Safe-env_gc : Safe (Good api n) (env_gc env_name v s)
    unfolding env_gc
    Safe-env_gc =
        Ends-check_env (Good api n) (λ _. Good api n) env_name "" v s h _
          (λ p at.
            Ends-unless (Good api n) (λ _. Good api n) p.1.closed _ s _ (λ e. h)
              (λ e. Good-environment p.0 p.1 (record { closed = true }) at.1))

    pub Safe-env_close : Safe (Good api n) (env_close env_name v s)
    unfolding env_close
    Safe-env_close =
        Ends-check_env (Good api n) (λ _. Good api n) env_name "" v s h _
          (λ p at.
            Ends-unless (Good api n) (λ _. Good api n) p.1.closed _ s _ (λ e. h)
              (λ e. Good-environment p.0 p.1 (record { closed = true }) at.1))

  pub Safe-create_environment :
      (n : ℕ) (s : Driver api) → Good api n s → Safe (Good api (suc n)) (create_environment s)
  unfolding create_environment
  Safe-create_environment n s h =
      Sound-append api n s.heap s.registry s.registry [] []
        (environment (record { closed = false })) h
        (Held-new_environment (Served api) (record { closed = false }) h.held) (λ y. refl) refl

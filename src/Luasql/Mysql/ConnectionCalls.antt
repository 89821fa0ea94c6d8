-- ===== src/Luasql/Mysql/ConnectionCalls.antt =====
-- Lua/include/luasql/ls_mysql.h: the calls on connections and environments keep the invariant, and
-- crash only where a long message is read.
use addons_terraria_tshock.Common.{
  ℕ, zero, suc, ◌≤◌, ◌<◌, Bool, true, false, Option, none, some, List, [], length, get_elem?, ◌≡◌,
  refl, ltb→lt, ltb→ge, ltb, if◌then◌else◌, Bool-cases, inl, inr, All, arith,
}
use addons_terraria_tshock.Common.Int.{ℤ}
use addons_terraria_tshock.Common.Outcome.{ok, fault}
use addons_terraria_tshock.Common.Triple.{
  Safe, Kept, Kept-Safe, Kept-and_then, Kept-or_crash, Ends-unless,
}
use addons_terraria_tshock.Luasql.{
  Value, object, environment, connection, ConnData, EnvData, create_connection, create_environment,
  env_gc, env_close, getenvironment, check_env, failmsg,
}
use addons_terraria_tshock.Luasql.Checks.{
  Ends-getconnection, Ends-check_conn, Ends-getenvironment, Ends-check_env,
}
use addons_terraria_tshock.Luasql.Refs.Objects.{
  Held-release, Held-unref_field, Held-connect, Held-environment, Held-new_environment,
}
use addons_terraria_tshock.Luasql.Mysql.Api.{Api, Driver}
use addons_terraria_tshock.Luasql.Mysql.Cursor.{create_cursor}
use addons_terraria_tshock.Luasql.Mysql.Connection.{
  conn_name, env_name, connecting, close_open, conn_gc, conn_close, escape_string, stored, queried,
  conn_execute, conn_commit, conn_rollback, conn_setautocommit, conn_getlastautoid, connected,
  inited, env_connect,
}
use addons_terraria_tshock.Luasql.Mysql.Message.{
  error_msg, strncpy, read_string, strncpy_short, strncpy_whole, strncpy_long,
}
use addons_terraria_tshock.Luasql.Mysql.Invariant.{Served, Good, made-Held}

module _ (api : Api) where
  open api use {Number, World, Conn, Result}

  Safe-close_open :
      (s : Driver api) (a : ℕ) (k : ConnData Conn)
      → Good api s
      → get_elem? s.heap a ≡ some (connection k)
      → k.closed ≡ false
      → Safe (Good api) (close_open api a k s)
  Safe-close_open s a k h g e =
      Held-unref_field (Served api) k.env []
        (Held-release (Served api) a k (record k { closed = true }) h g e refl)

  Safe-create_cursor :
      (s : Driver api) (a : ℕ) (v : Value Number) (res : Result) (cols : ℕ)
      → Good api s
      → v ≡ object a
      → Safe (Good api) (create_cursor api v res cols s)
  unfolding create_cursor
  Safe-create_cursor s a v res cols h e = made-Held api s.heap s.registry a v res cols h e

  Safe-stored :
      (s : Driver api) (a : ℕ) (v : Value Number) (k : ConnData Conn) (res : Option Result)
      (cols : ℕ)
      → Good api s
      → v ≡ object a
      → Safe (Good api) (stored api v k res cols s)
  Safe-stored s a v k (some res) cols h e = Safe-create_cursor s a v res cols h e
  Safe-stored s a v k none zero h e = h
  Safe-stored s a v k none (suc n) h e = h

  Safe-queried :
      (s : Driver api) (a : ℕ) (v : Value Number) (k : ConnData Conn) (failed : Bool)
      → Good api s
      → v ≡ object a
      → Safe (Good api) (queried api v k failed s)
  Safe-queried s a v k true h e = h
  Safe-queried s a v k false h e =
      let (res, w) = api.store_result k.driver s.world in
      Safe-stored (record s { world = w }) a v k res (api.field_count k.driver w) h e

  -- The message of a connection that fails is shorter than the bytes that are copied.
  abbrev pub IsShort : Type 0
  IsShort =
      (conn : Conn) (host username password : Option (List ℕ)) (sourcename : List ℕ) (port : ℤ)
      (w1 w2 : World)
      → api.real_connect conn host username password sourcename port w1 ≡ (false, w2)
      → length (api.errmsg conn w2) < 99

  Safe-connected :
      (s : Driver api) (v : Value Number) (conn : Conn) (fine : Bool)
      → (fine ≡ false → length (api.errmsg conn s.world) < 99)
      → Good api s
      → Safe (Good api) (connected api v conn fine s)
  unfolding create_connection
  Safe-connected s v conn true short h = Held-connect (Served api) v conn h
  Safe-connected s v conn false short h =
      let (b, t, e, f) =
        strncpy_short error_msg (api.errmsg conn s.world) 99 (short refl) (omega arith) in
      rw (e, f) h

  Safe-inited :
      (s : Driver api) (v : Value Number) (sourcename : List ℕ)
      (username password host : Option (List ℕ)) (port : ℤ) (conn : Option Conn)
      → IsShort
      → Good api s
      → Safe (Good api) (inited api v sourcename username password host port conn s)
  Safe-inited s v sourcename username password host port none short h = h
  Safe-inited s v sourcename username password host port (some conn) short h =
      let r = api.real_connect conn host username password sourcename port s.world in
      Safe-connected (record s { world = r.1 }) v conn r.0
        (λ e. short conn host username password sourcename port s.world r.1 (rw e refl)) h

  -- Without a bound on the message, the invariant holds unless the call crashes.
  Kept-connected :
      (s : Driver api) (v : Value Number) (conn : Conn) (fine : Bool)
      → Good api s
      → Kept (Good api) (connected api v conn fine s)
  unfolding create_connection
  Kept-connected s v conn true h =
      Kept-Safe {A = List (Value Number)} (Good api) (connected api v conn true s)
        (Held-connect (Served api) v conn h)
  Kept-connected s v conn false h =
      Kept-or_crash (Good api) (λ s. strncpy error_msg (api.errmsg conn s.world) 99) s _
        (λ b.
          Kept-or_crash (Good api) (λ s. read_string b)
            (record s { world = api.close_conn conn s.world }) _ (λ t. h))

  Kept-inited :
      (s : Driver api) (v : Value Number) (sourcename : List ℕ)
      (username password host : Option (List ℕ)) (port : ℤ) (conn : Option Conn)
      → Good api s
      → Kept (Good api) (inited api v sourcename username password host port conn s)
  Kept-inited s v sourcename username password host port none h = h
  Kept-inited s v sourcename username password host port (some conn) h =
      let (fine, w) = api.real_connect conn host username password sourcename port s.world in
      Kept-connected (record s { world = w }) v conn fine h

  module _ (s : Driver api) (v : Value Number) (h : Good api s) where
    pub Safe-conn_gc : Safe (Good api) (conn_gc api v s)
    unfolding conn_gc
    Safe-conn_gc =
        Ends-check_conn (Good api) (λ _. Good api) conn_name "" v s h _
          (λ p at.
            Ends-unless (Good api) (λ _. Good api) p.1.closed _ s _ (λ e. h)
              (Safe-close_open s p.0 p.1 h at.1))

    pub Safe-conn_close : Safe (Good api) (conn_close api v s)
    unfolding conn_close
    Safe-conn_close =
        Ends-check_conn (Good api) (λ _. Good api) conn_name "" v s h _
          (λ p at.
            Ends-unless (Good api) (λ _. Good api) p.1.closed _ s _ (λ e. h)
              (Safe-close_open s p.0 p.1 h at.1))

    pub Safe-escape_string : (from : List ℕ) → Safe (Good api) (escape_string api v from s)
    unfolding escape_string
    Safe-escape_string from =
        Ends-getconnection (Good api) (λ _. Good api) conn_name _ v s h _ (λ p at e. h)

    pub Safe-conn_execute : (statement : List ℕ) → Safe (Good api) (conn_execute api v statement s)
    unfolding conn_execute
    Safe-conn_execute statement =
        Ends-getconnection (Good api) (λ _. Good api) conn_name _ v s h _
          (λ p at e.
            let (failed, w) = api.real_query p.1.driver statement s.world in
            Safe-queried (record s { world = w }) p.0 v p.1 failed h at.0)

    pub Safe-conn_commit : Safe (Good api) (conn_commit api v s)
    unfolding conn_commit
    Safe-conn_commit =
        Ends-getconnection (Good api) (λ _. Good api) conn_name _ v s h _ (λ p at e. h)

    pub Safe-conn_rollback : Safe (Good api) (conn_rollback api v s)
    unfolding conn_rollback
    Safe-conn_rollback =
        Ends-getconnection (Good api) (λ _. Good api) conn_name _ v s h _ (λ p at e. h)

    pub Safe-conn_setautocommit :
        (on : Value Number) → Safe (Good api) (conn_setautocommit api v on s)
    unfolding conn_setautocommit
    Safe-conn_setautocommit on =
        Ends-getconnection (Good api) (λ _. Good api) conn_name _ v s h _ (λ p at e. h)

    pub Safe-conn_getlastautoid : Safe (Good api) (conn_getlastautoid api v s)
    unfolding conn_getlastautoid
    Safe-conn_getlastautoid =
        Ends-getconnection (Good api) (λ _. Good api) conn_name _ v s h _ (λ p at e. h)

    pub Safe-env_connect :
        (sourcename : List ℕ) (username password host : Option (List ℕ)) (port : ℤ)
        → IsShort
        → Safe (Good api) (env_connect api v sourcename username password host port s)
    unfolding env_connect
    Safe-env_connect sourcename username password host port short =
        Ends-getenvironment (Good api) (λ _. Good api) env_name _ v s h _
          (λ p at e.
            let (conn, w) = api.init s.world in
            Safe-inited (record s { world = w }) v sourcename username password host port conn short
              h)

    pub Kept-env_connect :
        (sourcename : List ℕ) (username password host : Option (List ℕ)) (port : ℤ)
        → Kept (Good api) (env_connect api v sourcename username password host port s)
    unfolding env_connect
    Kept-env_connect sourcename username password host port =
        Kept-and_then (Good api) (getenvironment env_name "environment is closed" v s) _
          (Ends-getenvironment (Good api) (λ _. Good api) env_name _ v s h _ (λ p at e. h))
          (λ p t g.
            let (conn, w) = api.init t.world in
            Kept-inited (record t { world = w }) v sourcename username password host port conn g)

    pub Safe-env_gc : Safe (Good api) (env_gc env_name v s)
    unfolding env_gc
    Safe-env_gc =
        Ends-check_env (Good api) (λ _. Good api) env_name "" v s h _
          (λ p at.
            Ends-unless (Good api) (λ _. Good api) p.1.closed _ s _ (λ e. h)
              (λ e. Held-environment (Served api) p.0 p.1 (record { closed = true }) h at.1))

    pub Safe-env_close : Safe (Good api) (env_close env_name v s)
    unfolding env_close
    Safe-env_close =
        Ends-check_env (Good api) (λ _. Good api) env_name "" v s h _
          (λ p at.
            Ends-unless (Good api) (λ _. Good api) p.1.closed _ s _ (λ e. h)
              (λ e. Held-environment (Served api) p.0 p.1 (record { closed = true }) h at.1))

  pub Safe-create_environment :
      (s : Driver api) → Good api s → Safe (Good api) (create_environment s)
  unfolding create_environment
  Safe-create_environment s h = Held-new_environment (Served api) (record { closed = false }) h

  connected_lem :
      (s : Driver api) (v : Value Number) (conn : Conn)
      → All (λ c. 1 ≤ c) (api.errmsg conn s.world)
      → (connected api v conn false s).0 ≡ (
          if ltb (length (api.errmsg conn s.world)) 99
          then ok (failmsg connecting (api.errmsg conn s.world))
          else fault)
  connected_lem s v conn p = elim (Bool-cases (ltb (length (api.errmsg conn s.world)) 99)) [
    | inl q ↦
        let (b, e, f) =
          strncpy_whole error_msg (api.errmsg conn s.world) 99 p (ltb→lt _ _ q) (omega arith) in
        rw (q, e, f) refl
    | inr q ↦
        let (b, e, f) =
          strncpy_long 100 (api.errmsg conn s.world) 99 p (ltb→ge _ _ q) (omega arith) in
        rw (q, e, f) refl
  ]

  -- On an open environment, where the connection that `mysql_init` gives fails with a message, a string
  -- without 0, env_connect returns nil and the message behind its own text if the message is shorter than
  -- 99 bytes, and else reads a byte that was never set.
  pub env_connect_failed :
      (s : Driver api) (a : ℕ) (e : EnvData) (sourcename : List ℕ)
      (username password host : Option (List ℕ)) (port : ℤ) (conn : Conn) (w1 w2 : World)
      → get_elem? s.heap a ≡ some (environment e)
      → e.closed ≡ false
      → api.init s.world ≡ (some conn, w1)
      → api.real_connect conn host username password sourcename port w1 ≡ (false, w2)
      → All (λ c. 1 ≤ c) (api.errmsg conn w2)
      → (env_connect api (object a) sourcename username password host port s).0 ≡ (
          if ltb (length (api.errmsg conn w2)) 99
          then ok (failmsg connecting (api.errmsg conn w2))
          else fault)
  unfolding env_connect getenvironment check_env
  env_connect_failed s a e sourcename username password host port conn w1 w2 g open_now i c p =
      rw (g, open_now, i, c) (connected_lem (record s { world = w2 }) (object a) conn p)

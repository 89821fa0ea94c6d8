-- ===== src/Luasql/Mysql/Run.antt =====
-- Lua/include/luasql/ls_mysql.h: sequences of calls, as a program that uses the driver makes them.
-- Finalizers run between calls.
use addons_terraria_tshock.Common.{ℕ, false, Option, some, List, [], get_elem?, ◌≡◌, refl, arith}
use addons_terraria_tshock.Common.Int.{ℤ}
use addons_terraria_tshock.Common.Outcome.{Outcome}
use addons_terraria_tshock.Common.Runs.{run, run-Kept}
use addons_terraria_tshock.Common.Triple.{Safe, Kept, Kept-Safe}
use addons_terraria_tshock.Registry.{lookup}
use addons_terraria_tshock.Luasql.{
  Scalar, Value, object, CurData, cursor, create_environment, env_gc, env_close,
}
use addons_terraria_tshock.Luasql.Counts.{live}
use addons_terraria_tshock.Luasql.Refs.{uses}
use addons_terraria_tshock.Luasql.Refs.Objects.{Held-initial}
use addons_terraria_tshock.Luasql.Mysql.Api.{Api, Driver, Call}
use addons_terraria_tshock.Luasql.Mysql.Cursor.{
  cur_gc, cur_close, cur_getcolnames, cur_getcoltypes, cur_fetch, cur_numrows, stored_at,
}
use addons_terraria_tshock.Luasql.Mysql.Connection.{
  env_name, conn_gc, conn_close, escape_string, conn_execute, conn_commit, conn_rollback,
  conn_setautocommit, conn_getlastautoid, env_connect,
}
use addons_terraria_tshock.Luasql.Mysql.Invariant.{Served, Good, Both}
use addons_terraria_tshock.Luasql.Mysql.CursorCalls.{
  Safe-cur_gc, Safe-cur_close, Safe-cur_fetch, Safe-cur_getcolnames, Safe-cur_getcoltypes,
  Safe-cur_numrows,
}
use addons_terraria_tshock.Luasql.Mysql.ConnectionCalls.{
  Safe-conn_gc, Safe-conn_close, Safe-conn_execute, Safe-conn_commit, Safe-conn_rollback,
  Safe-conn_getlastautoid, Safe-conn_setautocommit, Safe-escape_string, Kept-env_connect,
  Safe-env_gc, Safe-env_close, Safe-create_environment,
}

-- The functions that the metatables and the table of the driver register, and their arguments.
pub data Method (N : Type 0) : Type 0 where
  mysql : Method N
  env_gc_of env_close_of : Value N → Method N
  connect : Value N → List ℕ → Option (List ℕ) → Option (List ℕ) → Option (List ℕ) → ℤ → Method N
  conn_gc_of conn_close_of commit rollback getlastautoid : Value N → Method N
  escape execute : Value N → List ℕ → Method N
  setautocommit : Value N → Value N → Method N
  cur_gc_of cur_close_of getcolnames getcoltypes numrows : Value N → Method N
  fetch : Value N → Option (List (Scalar N × Scalar N)) → List ℕ → Method N

module _ (api : Api) where
  open api use {Number, World, Result}

  unfoldable pub call : Method Number → Call api
  call mysql = create_environment
  call (env_gc_of v) = env_gc env_name v
  call (env_close_of v) = env_close env_name v
  call (connect v sourcename username password host port) =
      env_connect api v sourcename username password host port
  call (conn_gc_of v) = conn_gc api v
  call (conn_close_of v) = conn_close api v
  call (commit v) = conn_commit api v
  call (rollback v) = conn_rollback api v
  call (getlastautoid v) = conn_getlastautoid api v
  call (escape v from) = escape_string api v from
  call (execute v statement) = conn_execute api v statement
  call (setautocommit v on) = conn_setautocommit api v on
  call (cur_gc_of v) = cur_gc api v
  call (cur_close_of v) = cur_close api v
  call (getcolnames v) = cur_getcolnames api v
  call (getcoltypes v) = cur_getcoltypes api v
  call (numrows v) = cur_numrows api v
  call (fetch v target opts) = cur_fetch api v target opts

  abbrev pub initial : World → Driver api
  initial w = record { heap = []; registry = record { free = 0; slots = [] }; world = w }

  -- What holds after every call: what holds after a safe one, and after `env_connect`.
  module _ (P : Outcome (List (Value Number)) × Driver api → Type 0)
      (f : (r : Outcome (List (Value Number)) × Driver api) → Safe (Good api) r → P r)
      (connects : (s : Driver api) (v : Value Number)
        → Good api s
        → (sourcename : List ℕ) (username password host : Option (List ℕ)) (port : ℤ)
        → P (env_connect api v sourcename username password host port s)) where
    call_lem : (s : Driver api) (m : Method Number) → Good api s → P (call m s)
    unfolding call
    call_lem s mysql h = f _ (Safe-create_environment api s h)
    call_lem s (env_gc_of v) h = f _ (Safe-env_gc api s v h)
    call_lem s (env_close_of v) h = f _ (Safe-env_close api s v h)
    call_lem s (connect v sourcename username password host port) h =
        connects s v h sourcename username password host port
    call_lem s (conn_gc_of v) h = f _ (Safe-conn_gc api s v h)
    call_lem s (conn_close_of v) h = f _ (Safe-conn_close api s v h)
    call_lem s (commit v) h = f _ (Safe-conn_commit api s v h)
    call_lem s (rollback v) h = f _ (Safe-conn_rollback api s v h)
    call_lem s (getlastautoid v) h = f _ (Safe-conn_getlastautoid api s v h)
    call_lem s (escape v from) h = f _ (Safe-escape_string api s v h from)
    call_lem s (execute v statement) h = f _ (Safe-conn_execute api s v h statement)
    call_lem s (setautocommit v on) h = f _ (Safe-conn_setautocommit api s v h on)
    call_lem s (cur_gc_of v) h = f _ (Safe-cur_gc api s v h)
    call_lem s (cur_close_of v) h = f _ (Safe-cur_close api s v h)
    call_lem s (getcolnames v) h = f _ (Safe-cur_getcolnames api s v h)
    call_lem s (getcoltypes v) h = f _ (Safe-cur_getcoltypes api s v h)
    call_lem s (numrows v) h = f _ (Safe-cur_numrows api s v h)
    call_lem s (fetch v target opts) h = f _ (Safe-cur_fetch api s v h target opts)

  reached :
      (w : World) (ms : List (Method Number)) (t : Driver api)
      → run call ms (initial w) ≡ some t
      → Good api t
  reached w ms t e =
      run-Kept call (Good api)
        (call_lem (Kept (Good api)) (Kept-Safe (Good api)) (Kept-env_connect api)) (initial w) ms t
        e (Held-initial (Served api))

  -- After any calls that do not crash, every reference that holds a value in the registry is owned by
  -- exactly one field of an open object, and every other reference by none: none leaks, and none is given
  -- back twice.
  pub owners-IsExact :
      (w : World) (ms : List (Method Number)) (t : Driver api)
      → run call ms (initial w) ≡ some t
      → (r : ℕ) → uses r t.heap ≡ live (lookup t.registry r)
  owners-IsExact w ms t e r = omega (arith, (reached w ms t e).accounted r)

  -- After any calls that do not crash, an open cursor keeps a userdata alive as its connection, and has
  -- both tables of its columns or neither.
  cursor-IsKept :
      (w : World) (ms : List (Method Number)) (t : Driver api) (a : ℕ) (c : CurData Result)
      → run call ms (initial w) ≡ some t
      → get_elem? t.heap a ≡ some (cursor c)
      → c.closed ≡ false
      → ((b : ℕ) × (stored_at api t c.conn ≡ some (object b))) × Both api c.colnames c.coltypes
  cursor-IsKept w ms t a c e g open_now =
      let (q, v, p, l, (both, (b, same)), _, _) = (reached w ms t e).tied a c g open_now in
      ((b, rw (p, l, same) refl), both)

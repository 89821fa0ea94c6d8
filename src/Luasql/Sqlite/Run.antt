-- ===== src/Luasql/Sqlite/Run.antt =====
-- Lua/include/luasql/ls_sqlite3.h: sequences of calls, as a program that uses the driver makes them.
-- Finalizers run between calls.
use addons_terraria_tshock.Common.{
  ℕ, suc, ◌^◌, ◌<◌, Option, some, List, [], length, ◌≡◌, refl, arith, subst,
}
use addons_terraria_tshock.Common.Outcome.{Outcome}
use addons_terraria_tshock.Common.Runs.{run, run_lem}
use addons_terraria_tshock.Common.Triple.{Safe, Ends-weaken}
use addons_terraria_tshock.Luasql.{Scalar, Value, object, create_environment, env_gc, env_close}
use addons_terraria_tshock.Luasql.Refs.Objects.{Held-initial}
use addons_terraria_tshock.Luasql.Sqlite.Api.{Api, Driver, Call}
use addons_terraria_tshock.Luasql.Sqlite.Cursor.{
  cur_gc, cur_close, cur_getcolnames, cur_getcoltypes, cur_fetch,
}
use addons_terraria_tshock.Luasql.Sqlite.Connection.{
  env_name, conn_gc, conn_close, conn_escape, conn_execute, conn_commit, conn_rollback,
  conn_setautocommit, conn_getlastautoid, env_connect,
}
use addons_terraria_tshock.Luasql.Sqlite.Invariant.{Good, Served}
use addons_terraria_tshock.Luasql.Sqlite.CursorCalls.{
  Safe-cur_gc, Safe-cur_close, Safe-cur_fetch, Safe-cur_getcolnames, Safe-cur_getcoltypes,
}
use addons_terraria_tshock.Luasql.Sqlite.ConnectionCalls.{Safe-conn_gc, Safe-conn_close}
use addons_terraria_tshock.Luasql.Sqlite.ConnectionUses.{
  Good-suc, Safe-conn_execute, Safe-conn_commit, Safe-conn_rollback, Safe-conn_getlastautoid,
  Safe-conn_setautocommit, Safe-conn_escape, Safe-env_connect, Safe-env_gc, Safe-env_close,
  Safe-create_environment,
}

-- The functions that the metatables and the table of the driver register, and their arguments.
pub data Method (N : Type 0) : Type 0 where
  sqlite3 : Method N
  env_gc_of env_close_of : Value N → Method N
  connect : Value N → List ℕ → Option N → Method N
  conn_gc_of conn_close_of commit rollback getlastautoid : Value N → Method N
  escape : List ℕ → Method N
  execute : Value N → List ℕ → Method N
  setautocommit : Value N → Value N → Method N
  cur_gc_of cur_close_of getcolnames getcoltypes : Value N → Method N
  fetch : Value N → Option (List (Scalar N × Scalar N)) → List ℕ → Method N

module _ (api : Api) where
  open api use {Number, World}

  unfoldable pub call : Method Number → Call api
  call sqlite3 = create_environment
  call (env_gc_of v) = env_gc env_name v
  call (env_close_of v) = env_close env_name v
  call (connect v name busy) = env_connect api v name busy
  call (conn_gc_of v) = conn_gc api v
  call (conn_close_of v) = conn_close api v
  call (commit v) = conn_commit api v
  call (rollback v) = conn_rollback api v
  call (getlastautoid v) = conn_getlastautoid api v
  call (escape from) = conn_escape api from
  call (execute v statement) = conn_execute api v statement
  call (setautocommit v on) = conn_setautocommit api v on
  call (cur_gc_of v) = cur_gc api v
  call (cur_close_of v) = cur_close api v
  call (getcolnames v) = cur_getcolnames api v
  call (getcoltypes v) = cur_getcoltypes api v
  call (fetch v target opts) = cur_fetch api v target opts

  Safe-suc :
      (n : ℕ) (r : Outcome (List (Value Number)) × Driver api)
      → Safe (Good api n) r
      → Safe (Good api (suc n)) r
  Safe-suc n r h = Ends-weaken r (Good-suc api n) (λ _. Good-suc api n) h

  pub Safe-call :
      (n : ℕ) (s : Driver api) (m : Method Number)
      → n < 2 ^ 32
      → Good api n s
      → Safe (Good api (suc n)) (call m s)
  unfolding call
  Safe-call n s sqlite3 b h = Safe-create_environment api n s h
  Safe-call n s (env_gc_of v) b h = Safe-suc n (env_gc env_name v s) (Safe-env_gc api n s v h)
  Safe-call n s (env_close_of v) b h =
      Safe-suc n (env_close env_name v s) (Safe-env_close api n s v h)
  Safe-call n s (connect v name busy) b h = Safe-env_connect api n s v h name busy
  Safe-call n s (conn_gc_of v) b h = Safe-suc n (conn_gc api v s) (Safe-conn_gc api n s v b h)
  Safe-call n s (conn_close_of v) b h =
      Safe-suc n (conn_close api v s) (Safe-conn_close api n s v b h)
  Safe-call n s (commit v) b h = Safe-suc n (conn_commit api v s) (Safe-conn_commit api n s v h)
  Safe-call n s (rollback v) b h =
      Safe-suc n (conn_rollback api v s) (Safe-conn_rollback api n s v h)
  Safe-call n s (getlastautoid v) b h =
      Safe-suc n (conn_getlastautoid api v s) (Safe-conn_getlastautoid api n s v h)
  Safe-call n s (escape from) b h =
      Safe-suc n (conn_escape api from s) (Safe-conn_escape api n s (object 0) h from)
  Safe-call n s (execute v statement) b h = Safe-conn_execute api n s v h statement
  Safe-call n s (setautocommit v on) b h =
      Safe-suc n (conn_setautocommit api v on s) (Safe-conn_setautocommit api n s v h on)
  Safe-call n s (cur_gc_of v) b h = Safe-suc n (cur_gc api v s) (Safe-cur_gc api n s v h)
  Safe-call n s (cur_close_of v) b h = Safe-suc n (cur_close api v s) (Safe-cur_close api n s v h)
  Safe-call n s (getcolnames v) b h =
      Safe-suc n (cur_getcolnames api v s) (Safe-cur_getcolnames api n s v h)
  Safe-call n s (getcoltypes v) b h =
      Safe-suc n (cur_getcoltypes api v s) (Safe-cur_getcoltypes api n s v h)
  Safe-call n s (fetch v target opts) b h =
      Safe-suc n (cur_fetch api v target opts s) (Safe-cur_fetch api n s v h target opts)

  abbrev pub initial : World → Driver api
  initial w = record { heap = []; registry = record { free = 0; slots = [] }; world = w }

  Good-initial : (w : World) → Good api 0 (initial w)
  Good-initial w = record {
    small = omega arith;
    held = Held-initial (Served api);
    balanced = λ x. refl;
  }

  pub run-Good :
      (w : World) (ms : List (Method Number))
      → length ms < 2 ^ 32
      → (t : Driver api) × (run call ms (initial w) ≡ some t) × Good api (length ms) t
  run-Good w ms b =
      let (t, e, h) =
        run_lem call (Good api) (2 ^ 32) Safe-call 0 (initial w) ms (omega arith)
          (Good-initial w) in
      (t, e, subst (λ n. Good api n t) (omega arith) h)

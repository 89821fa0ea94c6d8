-- ===== src/Luasql/Sqlite/Examples.antt =====
-- Lua/include/luasql/ls_sqlite3.h: runs of the driver over a small database.
use addons_terraria_tshock.Common.{
  ℕ, ◌+◌, ◌==◌, if◌then◌else◌, true, false, none, some, List, [], ◌∷◌, get_elem?, set, ◌≡◌, refl,
  arith,
}
use addons_terraria_tshock.Common.Int.{ℤ, pos}
use addons_terraria_tshock.Common.Outcome.{ok, err, error}
use addons_terraria_tshock.Common.Runs.{run}
use addons_terraria_tshock.Registry.{stored, next, lookup, ref, unref}
use addons_terraria_tshock.Luasql.{
  nil, boolean, string, scalar, object, columns, environment, connection, cursor, ConnData, CurData,
  check_env, check_conn, check_cur, getenvironment, getconnection, getcursor, drop_refs,
  create_connection, create_environment,
}
use addons_terraria_tshock.Luasql.Counts.{live}
use addons_terraria_tshock.Luasql.Refs.{uses}
use addons_terraria_tshock.Luasql.Sqlite.Api.{Api, SqlConn, SqlCur, Driver, row, done, integer}
use addons_terraria_tshock.Luasql.Sqlite.Cursor.{
  push_column, stored_at, row_values, fetch_row, finalize, cur_nullify, create_cursor, cur_fetch,
}
use addons_terraria_tshock.Luasql.Sqlite.Connection.{conn_close, conn_execute, env_connect}
use addons_terraria_tshock.Luasql.Sqlite.Run.{
  Method, sqlite3, connect, execute, fetch, conn_close_of, call, initial,
}
use addons_terraria_tshock.Luasql.Sqlite.Invariant.{opened}
use addons_terraria_tshock.Luasql.Sqlite.Reach.{
  run_survives, cursor-IsConnected, connection-IsExact, references-IsExact, conn_close_lem,
}

-- A database whose queries have one row with the column 5. The world counts the steps.
abbrev database : Api
database = record {
  Number = ℤ;
  World = ℕ;
  Conn = Unit {0};
  Stmt = ℕ;
  to_number = λ z. z;
  open_db = λ name w. ((true, tt), w);
  close_db = λ conn w. w;
  busy_timeout = λ conn t w. w;
  errmsg = λ conn w. [];
  prepare = λ conn sql w. (some 7, w);
  step = λ vm w. (if w == 0 then row else done, w + 1);
  reset = λ vm w. 0;
  finalize_vm = λ vm w. (true, w);
  column_count = λ vm w. 1;
  column = λ vm i w. integer (pos 5);
  column_name = λ vm i w. some (b'n' ∷ []);
  column_decltype = λ vm i w. none;
  changes = λ conn w. pos 1;
  last_insert_rowid = λ conn w. pos 1;
  exec = λ conn sql w. (none, w);
  mprintf_q = λ text. some text;
}

abbrev program : List (Method ℤ)
program = sqlite3 ∷ connect (object 0) [] none ∷ execute (object 1) [] ∷ []

abbrev idle : ConnData (SqlConn database)
idle = record {
  closed = false;
  env = some 1;
  driver = record { auto_commit = true; cur_counter = 1; sql_conn = tt };
}

abbrev query : CurData (SqlCur database)
query = record {
  closed = false;
  conn = some 2;
  numcols = 1;
  colnames = some 3;
  coltypes = some 4;
  driver = record { conn_data = 1; sql_vm = some 7 };
}

-- The state after the program: the environment, the connection and a cursor.
abbrev queried : Driver database
queried = record {
  heap = environment (record { closed = false }) ∷ connection idle ∷ cursor query ∷ [];
  registry = record {
    free = 0;
    slots =
        stored (object 0)
        ∷ stored (object 1)
        ∷ stored (columns (string (b'n' ∷ []) ∷ []))
        ∷ stored (columns (nil ∷ []))
        ∷ [];
  };
  world = 0;
}

final_state : run (call database) program (initial database 0) ≡ some queried
unfolding call create_environment env_connect getenvironment check_env create_connection
    conn_execute getconnection check_conn create_cursor ref
final_state = refl

-- The row is fetched, and the next call closes the cursor.
fetch_run :
    run
      (call database)
      (fetch (object 2) none (b'n' ∷ [])
        ∷ fetch (object 2) none (b'n' ∷ [])
        ∷ conn_close_of (object 1)
        ∷ [])
      queried
    ≡ some (record {
      heap =
          environment (record { closed = false })
          ∷ connection (record {
            closed = true;
            env = some 1;
            driver = record { auto_commit = true; cur_counter = 0; sql_conn = tt };
          })
          ∷ cursor
              (record query { closed = true; driver = record { conn_data = 1; sql_vm = none } })
          ∷ [];
      registry = record { free = 1; slots = next 4 ∷ next 0 ∷ next 2 ∷ next 3 ∷ [] };
      world = 2;
    })
unfolding call cur_fetch getcursor check_cur fetch_row row_values push_column finalize cur_nullify
    drop_refs conn_close check_conn unref lookup
fetch_run = refl

run_survives_example :
    (t : Driver database) × (run (call database) program (initial database 0) ≡ some t)
run_survives_example = run_survives database 0 program (omega arith)

cursor-IsConnected_example :
    (k : ConnData (SqlConn database)) × (get_elem? queried.heap 1 ≡ some (connection k))
    × (k.closed ≡ false)
    × (stored_at database queried (some 2) ≡ some (object 1))
cursor-IsConnected_example =
    cursor-IsConnected database 0 program queried (omega arith) final_state 2 query refl refl

connection-IsExact_example : 1 ≡ opened database 1 queried.heap
connection-IsExact_example =
    connection-IsExact database 0 program queried (omega arith) final_state 1 idle refl refl

references-IsExact_example : uses 2 queried.heap ≡ live (lookup queried.registry 2)
references-IsExact_example =
    references-IsExact database 0 program queried (omega arith) final_state 2

conn_close_lem_example : conn_close database (object 1) queried ≡ (
    if opened database 1 queried.heap == 0
    then (
      ok (scalar (boolean true) ∷ []),
      record {
        heap = set queried.heap 1 (connection (record idle { closed = true }));
        registry = unref (some 1) queried.registry;
        world = 0;
      },
    )
    else (err (error "LuaSQL: there are open cursors"), queried))
conn_close_lem_example =
    conn_close_lem database 0 program queried (omega arith) final_state 1 idle refl refl

-- ===== src/Luasql/Mysql/Examples.antt =====
-- Lua/include/luasql/ls_mysql.h: runs of the driver over a small database.
use addons_terraria_tshock.Common.{
  ℕ, ◌+◌, ◌==◌, if◌then◌else◌, Bool, true, false, none, some, List, [], ◌∷◌, replicate, length,
  zero, suc, ◌≤◌, All, ltb, ◌≡◌, refl, arith,
}
use addons_terraria_tshock.Common.Int.{ℤ, pos}
use addons_terraria_tshock.Common.Outcome.{ok, fault}
use addons_terraria_tshock.Common.Runs.{run}
use addons_terraria_tshock.Registry.{stored, lookup, ref}
use addons_terraria_tshock.Luasql.{
  string, object, columns, environment, connection, cursor, CurData, check_env, check_conn,
  check_cur, getenvironment, getconnection, getcursor, failmsg, create_connection,
  create_environment,
}
use addons_terraria_tshock.Luasql.Counts.{live}
use addons_terraria_tshock.Luasql.Refs.{uses}
use addons_terraria_tshock.Luasql.Mysql.Api.{Api, Driver, type_date}
use addons_terraria_tshock.Luasql.Mysql.Columns.{type_name, getcolumntype, names_from, types_from}
use addons_terraria_tshock.Luasql.Mysql.Cursor.{create_colinfo, create_cursor, cur_getcolnames}
use addons_terraria_tshock.Luasql.Mysql.Connection.{connecting, conn_execute, env_connect}
use addons_terraria_tshock.Luasql.Mysql.Message.{strncpy, read_string}
use addons_terraria_tshock.Luasql.Mysql.ConnectionCalls.{env_connect_failed}
use addons_terraria_tshock.Luasql.Mysql.Run.{
  Method, mysql, connect, execute, getcolnames, call, initial, owners-IsExact,
}

-- A server that accepts connections or not, with a message, and whose queries have one column.
abbrev server : Bool → List ℕ → Api
server accepts message = record {
  Number = ℤ;
  World = ℕ;
  Conn = Unit {0};
  Result = Unit {0};
  to_number = λ z. z;
  format_long = λ n. b'1' ∷ b'0' ∷ [];
  init = λ w. (some tt, w);
  real_connect = λ conn host username password sourcename port w. (accepts, w);
  errmsg = λ conn w. message;
  close_conn = λ conn w. w;
  real_escape_string = λ conn text w. text;
  real_query = λ conn statement w. (false, w);
  store_result = λ conn w. (some tt, w);
  field_count = λ conn w. 1;
  affected_rows = λ conn w. 0;
  commit_conn = λ conn w. (false, w);
  rollback_conn = λ conn w. (false, w);
  autocommit = λ conn on w. w;
  insert_id = λ conn w. 1;
  fetch_row = λ res w. (if w == 0 then some (λ i. some (b'5' ∷ [])) else none, w + 1);
  fetch_field = λ res i w. record { name = b'd' ∷ []; type = type_date; length = 10 };
  free_result = λ res w. w;
  num_rows = λ res w. 1;
}

abbrev open_server : Api
open_server = server true []

abbrev program : List (Method ℤ)
program =
    mysql
    ∷ connect (object 0) [] none none none (pos 0)
    ∷ execute (object 1) []
    ∷ getcolnames (object 2)
    ∷ []

abbrev query : CurData (Unit {0})
query = record {
  closed = false;
  conn = some 2;
  numcols = 1;
  colnames = some 4;
  coltypes = some 3;
  driver = tt;
}

-- The state after the program: the environment, the connection, and a cursor with its tables.
abbrev queried : Driver open_server
queried = record {
  heap =
      environment (record { closed = false })
      ∷ connection (record { closed = false; env = some 1; driver = tt })
      ∷ cursor query
      ∷ [];
  registry = record {
    free = 0;
    slots =
        stored (object 0)
        ∷ stored (object 1)
        ∷ stored
            (columns (string (b'd' ∷ b'a' ∷ b't' ∷ b'e' ∷ b'(' ∷ b'1' ∷ b'0' ∷ b')' ∷ []) ∷ []))
        ∷ stored (columns (string (b'd' ∷ []) ∷ []))
        ∷ [];
  };
  world = 0;
}

final_state : run (call open_server) program (initial open_server 0) ≡ some queried
unfolding call create_environment env_connect getenvironment check_env create_connection
    conn_execute getconnection check_conn create_cursor ref cur_getcolnames getcursor check_cur
    create_colinfo names_from types_from type_name getcolumntype lookup
final_state = refl

owners-IsExact_example : uses 2 queried.heap ≡ live (lookup queried.registry 2)
owners-IsExact_example = owners-IsExact open_server 0 program queried final_state 2

abbrev message : List ℕ
message = replicate 120 b'x'

abbrev closed_server : Api
closed_server = server false message

abbrev one_environment : Driver closed_server
one_environment = record (initial closed_server 0) {
  heap = environment (record { closed = false }) ∷ [];
}

env_connect_failed_example :
    (env_connect closed_server (object 0) [] none none none (pos 0) one_environment).0
    ≡ (if ltb (length message) 99 then ok (failmsg connecting message) else fault)
env_connect_failed_example =
    env_connect_failed closed_server one_environment 0 (record { closed = false }) [] none none none
      (pos 0) tt 0 0 refl refl refl refl (All-replicate 120)
  where
    All-replicate : (n : ℕ) → All (λ c. 1 ≤ c) (replicate n b'x')
    All-replicate zero = tt
    All-replicate (suc n) = (omega arith, All-replicate n)

-- A refusal with a short message.
refusal :
    (env_connect
      (server false (b'x' ∷ []))
      (object 0)
      []
      none
      none
      none
      (pos 0)
      (record (initial (server false (b'x' ∷ [])) 0) {
        heap = environment (record { closed = false }) ∷ [];
      })).0
    ≡ ok (failmsg connecting (b'x' ∷ []))
unfolding env_connect getenvironment check_env strncpy read_string
refusal = refl

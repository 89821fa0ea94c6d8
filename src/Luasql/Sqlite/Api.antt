-- ===== src/Luasql/Sqlite/Api.antt =====
-- What Lua/include/luasql/ls_sqlite3.h uses of SQLite, and the fields that only this driver has.
use addons_terraria_tshock.Common.{ℕ, Bool, Option, List}
use addons_terraria_tshock.Common.Int.{ℤ}
use addons_terraria_tshock.Luasql.{State, Value}
use addons_terraria_tshock.Common.Action.{Action}

-- What `sqlite3_step` returns: SQLITE_ROW, SQLITE_DONE, or an error.
pub data StepResult : Type 0 where
  row done failed : StepResult

-- A column by `sqlite3_column_type`; an integer has 64 bits.
pub data Column (N : Type 0) : Type 0 where
  integer : ℤ → Column N
  float : N → Column N
  text : List ℕ → Column N
  blob : List ℕ → Column N
  null : Column N
  unrecognized : Column N

-- SQLite, with what it changes as a world, and the numbers of Lua.
pub record Api : Type 1 where
  pub Number : Type 0
  pub World : Type 0
  pub Conn : Type 0
  pub Stmt : Type 0
  -- A `lua_Number` from a C integer.
  pub to_number : ℤ → Number
  -- Whether it is SQLITE_OK, and the connection, which is there in either case.
  pub open_db : List ℕ → World → (Bool × Conn) × World
  pub close_db : Conn → World → World
  pub busy_timeout : Conn → Number → World → World
  pub errmsg : Conn → World → List ℕ
  pub prepare : Conn → List ℕ → World → Option Stmt × World
  pub step : Stmt → World → StepResult × World
  pub reset : Stmt → World → World
  -- Whether it is SQLITE_OK; a null statement is.
  pub finalize_vm : Option Stmt → World → Bool × World
  pub column_count : Stmt → World → ℕ
  pub column : Stmt → ℕ → World → Column Number
  pub column_name : Stmt → ℕ → World → Option (List ℕ)
  pub column_decltype : Stmt → ℕ → World → Option (List ℕ)
  pub changes : Conn → World → ℤ
  pub last_insert_rowid : Conn → World → ℤ
  -- The error message, if there is an error.
  pub exec : Conn → List ℕ → World → Option (List ℕ) × World
  -- `sqlite3_mprintf("%q", from)`.
  pub mprintf_q : List ℕ → Option (List ℕ)

module _ (api : Api) where
  open api use {Number, World, Conn, Stmt}

  -- The fields of `conn_data_sqlite` and `cur_data_sqlite` that the other driver does not have.
  pub record SqlConn : Type 0 where
    pub auto_commit : Bool
    pub cur_counter : ℕ
    pub sql_conn : Conn

  pub record SqlCur : Type 0 where
    pub conn_data : ℕ
    pub sql_vm : Option Stmt

  abbrev pub Driver : Type 0
  Driver = State Number World SqlConn SqlCur

  abbrev pub Call : Type 0
  Call = Action Driver (List (Value Number))

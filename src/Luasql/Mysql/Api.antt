-- ===== src/Luasql/Mysql/Api.antt =====
-- What Lua/include/luasql/ls_mysql.h uses of the client library of MySQL.
use addons_terraria_tshock.Common.{ℕ, Bool, Option, List}
use addons_terraria_tshock.Common.Int.{ℤ}
use addons_terraria_tshock.Common.Action.{Action}
use addons_terraria_tshock.Luasql.{State, Value}

-- `enum_field_types`; `other` is a type that the driver does not know.
pub data FieldType : Type 0 where
  type_var_string type_string type_decimal type_short type_long type_float : FieldType
  type_double type_longlong type_int24 type_year type_tiny type_tiny_blob : FieldType
  type_medium_blob type_long_blob type_blob type_date type_newdate type_datetime : FieldType
  type_time type_timestamp type_enum type_set type_null type_other : FieldType

pub record MysqlField : Type 0 where
  pub name : List ℕ
  pub type : FieldType
  pub length : ℕ

-- The client library, with what it changes as a world, the numbers of Lua, and `%ld` of the C library.
pub record Api : Type 1 where
  pub Number : Type 0
  pub World : Type 0
  pub Conn : Type 0
  pub Result : Type 0
  -- A `lua_Number` from a C integer.
  pub to_number : ℤ → Number
  pub format_long : ℕ → List ℕ
  -- None without memory.
  pub init : World → Option Conn × World
  -- The host, the user, the password, the database and the port; whether it connected.
  pub real_connect :
      Conn → Option (List ℕ) → Option (List ℕ) → Option (List ℕ) → List ℕ → ℤ → World → Bool × World
  pub errmsg : Conn → World → List ℕ
  pub close_conn : Conn → World → World
  pub real_escape_string : Conn → List ℕ → World → List ℕ
  -- Whether there is an error, here and below.
  pub real_query : Conn → List ℕ → World → Bool × World
  pub store_result : Conn → World → Option Result × World
  pub field_count : Conn → World → ℕ
  pub affected_rows : Conn → World → ℕ
  pub commit_conn : Conn → World → Bool × World
  pub rollback_conn : Conn → World → Bool × World
  pub autocommit : Conn → Bool → World → World
  pub insert_id : Conn → World → ℕ
  -- The fields of a row with their lengths, where NULL is none.
  pub fetch_row : Result → World → Option (ℕ → Option (List ℕ)) × World
  pub fetch_field : Result → ℕ → World → MysqlField
  pub free_result : Result → World → World
  pub num_rows : Result → World → ℕ

module _ (api : Api) where
  open api use {Number, World, Conn, Result}

  -- The pointer is the only field of a connection, and of a cursor, that the other driver lacks.
  abbrev pub Driver : Type 0
  Driver = State Number World Conn Result

  abbrev pub Call : Type 0
  Call = Action Driver (List (Value Number))

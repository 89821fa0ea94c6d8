-- ===== src/Luasql.antt =====
-- Lua/include/luasql/ls_mysql.h and Lua/include/luasql/ls_sqlite3.h: what the two drivers of LuaSQL
-- share. Both have environments, connections and cursors with the same first fields; `driver` stands
-- for the fields that only one of them has. Userdata stay in the heap when Lua has collected them,
-- as closed objects. No call runs out of memory.
pub mod Checks
pub mod Counts
pub mod Refs
pub mod Rows
pub mod Sqlite
pub mod Mysql
use Prim.Native.String.{String}
use addons_terraria_tshock.Common.{
  ℕ, zero, suc, Bool, true, false, not, Option, none, some, List, [], ◌∷◌, ◌++◌, length, get_elem?,
  set,
}
use addons_terraria_tshock.Common.Outcome.{Outcome, ok, err, argerror, error}
use addons_terraria_tshock.Common.Action.{
  Action, ◌>>=◌, ◌>>◌, pure, unless, or_raise, raise_if, gets, modify,
}
use addons_terraria_tshock.Registry.{Registry, lookup, ref, unref}

pub data Scalar (N : Type 0) : Type 0 where
  nil : Scalar N
  boolean : Bool → Scalar N
  number : N → Scalar N
  string : List ℕ → Scalar N

-- The Lua values that the drivers are given, keep and return: an address is that of a userdata, and
-- a table is the list of what is written to it.
pub data Value (N : Type 0) : Type 0 where
  scalar : Scalar N → Value N
  object : ℕ → Value N
  columns : List (Scalar N) → Value N
  table : List (Scalar N × Scalar N) → Value N

pub record EnvData : Type 0 where
  pub closed : Bool

-- References are `none` for LUA_NOREF.
pub record ConnData (K : Type 0) : Type 0 where
  pub closed : Bool
  pub env : Option ℕ
  pub driver : K

pub record CurData (C : Type 0) : Type 0 where
  pub closed : Bool
  pub conn : Option ℕ
  pub numcols : ℕ
  pub colnames : Option ℕ
  pub coltypes : Option ℕ
  pub driver : C

pub data Object (K C : Type 0) : Type 0 where
  environment : EnvData → Object K C
  connection : ConnData K → Object K C
  cursor : CurData C → Object K C

-- `world` is the state of the database library.
pub record State (N W K C : Type 0) : Type 0 where
  pub heap : List (Object K C)
  pub registry : Registry (Value N)
  pub world : W

-- `lua_toboolean`.
abbrev pub to_boolean : {N : Type 0} → Value N → Bool
to_boolean (scalar nil) = false
to_boolean (scalar (boolean b)) = b
to_boolean _ = true

-- LUASQL_PREFIX, `LuaSQL: `.
abbrev pub prefix : List ℕ
prefix = b'L' ∷ b'u' ∷ b'a' ∷ b'S' ∷ b'Q' ∷ b'L' ∷ b':' ∷ b' ' ∷ []

abbrev pub faildirect : {N : Type 0} → List ℕ → List (Value N)
faildirect msg = scalar nil ∷ scalar (string (prefix ++ msg)) ∷ []

abbrev pub failmsg : {N : Type 0} → List ℕ → List ℕ → List (Value N)
failmsg msg m = scalar nil ∷ scalar (string (prefix ++ msg ++ m)) ∷ []

module _ {K C : Type 0} where
  -- `luaL_checkudata` on the first argument: the address and the data of an object of the class.
  abbrev pub env_in : ℕ → Option (Object K C) → Option (ℕ × EnvData)
  env_in a (some (environment e)) = some (a, e)
  env_in a _ = none

  abbrev pub conn_in : ℕ → Option (Object K C) → Option (ℕ × ConnData K)
  conn_in a (some (connection k)) = some (a, k)
  conn_in a _ = none

  abbrev pub cur_in : ℕ → Option (Object K C) → Option (ℕ × CurData C)
  cur_in a (some (cursor c)) = some (a, c)
  cur_in a _ = none

module _ {N W K C : Type 0} where
  abbrev pub to_object :
      {A : Type 0} → (ℕ → Option (Object K C) → Option A) → State N W K C → Value N → Option A
  to_object class s (object a) = class a (get_elem? s.heap a)
  to_object class s _ = none

  unfoldable pub check_env : String → Value N → Action (State N W K C) (ℕ × EnvData)
  check_env tname v s = or_raise (to_object env_in s v) (argerror 1 tname) s

  unfoldable pub check_conn : String → Value N → Action (State N W K C) (ℕ × ConnData K)
  check_conn tname v s = or_raise (to_object conn_in s v) (argerror 1 tname) s

  unfoldable pub check_cur : String → Value N → Action (State N W K C) (ℕ × CurData C)
  check_cur tname v s = or_raise (to_object cur_in s v) (argerror 1 tname) s

  -- `getenvironment`, `getconnection` and `getcursor`: closed objects are refused.
  unfoldable pub getenvironment : String → String → Value N → Action (State N W K C) (ℕ × EnvData)
  unfolding check_env
  getenvironment tname closed v = do
    (a, e) ← check_env tname v
    raise_if e.closed (argerror 1 closed)
    pure (a, e)

  unfoldable pub getconnection : String → String → Value N → Action (State N W K C) (ℕ × ConnData K)
  unfolding check_conn
  getconnection tname closed v = do
    (a, k) ← check_conn tname v
    raise_if k.closed (argerror 1 closed)
    pure (a, k)

  unfoldable pub getcursor : String → String → Value N → Action (State N W K C) (ℕ × CurData C)
  unfolding check_cur
  getcursor tname closed v = do
    (a, c) ← check_cur tname v
    raise_if c.closed (argerror 1 closed)
    pure (a, c)

  -- A write to an object, a new userdata, and the references into the registry.
  abbrev pub put : ℕ → Object K C → Action (State N W K C) (Unit {0})
  put a o = modify (λ s. record s { heap = set s.heap a o })

  abbrev pub new_userdata : Object K C → Action (State N W K C) ℕ
  new_userdata o s = (ok (length s.heap), record s { heap = s.heap ++ (o ∷ []) })

  abbrev pub ref_value : Value N → Action (State N W K C) ℕ
  ref_value v s = let (i, r) = ref v s.registry in (ok i, record s { registry = r })

  abbrev pub unref_value : Option ℕ → Action (State N W K C) (Unit {0})
  unref_value o = modify (λ s. record s { registry = unref o s.registry })

  -- A call of the database library.
  abbrev pub calls : {A : Type 0} → (W → A × W) → Action (State N W K C) A
  calls f s = let (a, w) = f s.world in (ok a, record s { world = w })

  -- The last lines of both `cur_nullify`.
  unfoldable pub drop_refs : CurData C → Action (State N W K C) (Unit {0})
  drop_refs c = do unref_value c.conn; unref_value c.colnames; unref_value c.coltypes

  -- The reference to the environment is LUA_NOREF before it is taken, and no call between looks.
  unfoldable pub create_connection : Value N → K → Action (State N W K C) (List (Value N))
  create_connection env k = do
    r ← ref_value env
    a ← new_userdata (connection (record { closed = false; env = some r; driver = k }))
    pure (object a ∷ [])

  unfoldable pub create_environment : Action (State N W K C) (List (Value N))
  create_environment = do
    a ← new_userdata (environment (record { closed = false }))
    pure (object a ∷ [])

  -- The collector of environments: a closed one is left alone.
  unfoldable pub env_gc : String → Value N → Action (State N W K C) (List (Value N))
  unfolding check_env
  env_gc tname v = do
    (a, e) ← check_env tname v
    unless e.closed (put a (environment (record { closed = true })))
    pure []

  -- An object that is closed already is reported as false.
  unfoldable pub env_close : String → Value N → Action (State N W K C) (List (Value N))
  unfolding check_env
  env_close tname v = do
    (a, e) ← check_env tname v
    unless e.closed (put a (environment (record { closed = true })))
    pure (scalar (boolean (not e.closed)) ∷ [])

-- ===== src/Luasql/Sqlite/Invariant.antt =====
-- Lua/include/luasql/ls_sqlite3.h: what holds between any two calls of the driver.
use addons_terraria_tshock.Common.{
  ℕ, ◌%◌, ◌^◌, ◌≤◌, ◌==◌, if◌then◌else◌, Bool, true, false, Option, none, some, List, [], length,
  get_elem?, ◌≡◌, refl, subst, arith, Bool-cases, inl, inr, ==_self, total, le-total,
}
use addons_terraria_tshock.Registry.{Registry}
use addons_terraria_tshock.Luasql.{
  Value, object, Object, environment, connection, cursor, ConnData, CurData,
}
use addons_terraria_tshock.Luasql.Refs.{Held}
use addons_terraria_tshock.Luasql.Sqlite.Api.{Api, SqlConn, SqlCur, Driver}

module _ (api : Api) where
  open api use {Number}

  abbrev pub Heap : Type 0
  Heap = List (Object (SqlConn api) (SqlCur api))

  -- The registry's value of a cursor is the connection that it came from, and it has its names.
  abbrev pub Served : CurData (SqlCur api) → Value Number → Type 0
  Served c v = (v ≡ object c.driver.conn_data) × ((q : ℕ) × (c.colnames ≡ some q))

  -- Whether an object is an open cursor of the connection at x.
  abbrev pub opens : ℕ → Object (SqlConn api) (SqlCur api) → ℕ
  opens x (cursor c) = if c.closed then 0 else if c.driver.conn_data == x then 1 else 0
  opens x _ = 0

  -- The number of open cursors of the connection at x.
  abbrev pub opened : ℕ → Heap → ℕ
  opened x heap = total (opens x) heap

  abbrev pub Counts : Bool → ℕ → ℕ → Type 0
  Counts true counter n = n ≡ 0
  Counts false counter n = counter ≡ n % 2 ^ 32

  -- Only an open connection has open cursors, and it counts them.
  abbrev pub Balanced : ℕ → Option (Object (SqlConn api) (SqlCur api)) → Type 0
  Balanced n (some (connection k)) = Counts k.closed k.driver.cur_counter n
  Balanced n _ = n ≡ 0

  pub record Sound (n : ℕ) (heap : Heap) (reg : Registry (Value Number)) (loose : List ℕ)
      : Type 0 where
    pub small : length heap ≤ n
    pub held : Held Served heap reg loose
    pub balanced : (x : ℕ) → Balanced (opened x heap) (get_elem? heap x)

  abbrev pub Good : ℕ → Driver api → Type 0
  Good n s = Sound n s.heap s.registry []

  pub opens-le-one : (x : ℕ) (o : Object (SqlConn api) (SqlCur api)) → opens x o ≤ 1
  opens-le-one x (environment e) = omega arith
  opens-le-one x (connection k) = omega arith
  opens-le-one x (cursor c) = ground arith

  pub opens_own :
      (c : CurData (SqlCur api)) → c.closed ≡ false → opens c.driver.conn_data (cursor c) ≡ 1
  opens_own c e = rw (e, ==_self c.driver.conn_data) refl

  -- What has an open cursor is an open connection.
  Balanced-open :
      (n : ℕ) (o : Option (Object (SqlConn api) (SqlCur api)))
      → Balanced n o
      → 1 ≤ n
      → (k : ConnData (SqlConn api)) × (o ≡ some (connection k)) × (k.closed ≡ false)
  Balanced-open n none b h = absurd (omega arith)
  Balanced-open n (some (environment e)) b h = absurd (omega arith)
  Balanced-open n (some (cursor e)) b h = absurd (omega arith)
  Balanced-open n (some (connection k)) b h = elim (Bool-cases k.closed) [
    | inl e ↦ absurd (omega (arith, subst (λ t. Counts t k.driver.cur_counter n) e b))
    | inr e ↦ (k, refl, e)
  ]

  -- The connection of an open cursor is open.
  pub connection_open :
      (n : ℕ) (heap : Heap) (reg : Registry (Value Number)) (loose : List ℕ) (a : ℕ)
      (c : CurData (SqlCur api))
      → Sound n heap reg loose
      → get_elem? heap a ≡ some (cursor c)
      → c.closed ≡ false
      → (k : ConnData (SqlConn api)) × (get_elem? heap c.driver.conn_data ≡ some (connection k))
        × (k.closed ≡ false)
  connection_open n heap reg loose a c h g e =
      Balanced-open (opened c.driver.conn_data heap) (get_elem? heap c.driver.conn_data)
        (h.balanced c.driver.conn_data)
        (omega (arith, le-total (opens c.driver.conn_data) heap a (cursor c) g, opens_own c e))

  pub IsCounted :
      (n : ℕ) (heap : Heap) (reg : Registry (Value Number)) (loose : List ℕ) (a : ℕ)
      (k : ConnData (SqlConn api))
      → Sound n heap reg loose
      → get_elem? heap a ≡ some (connection k)
      → k.closed ≡ false
      → k.driver.cur_counter ≡ opened a heap % 2 ^ 32
  IsCounted n heap reg loose a k h g e =
      subst (λ t. Counts t k.driver.cur_counter (opened a heap)) e
        (subst (Balanced (opened a heap)) g (h.balanced a))

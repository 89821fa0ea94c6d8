-- ===== src/Luasql/Sqlite/ConnectionCalls.antt =====
-- Lua/include/luasql/ls_sqlite3.h: the calls on connections and environments never crash, and keep
-- the invariant.

use addons_terraria_tshock.Common.{
  ℕ, ◌^◌, ◌<◌, ltb, true, false, some, [], get_elem?, set, ◌≡◌, refl, arith, ltb→ge,
  total-le_length,
}
use addons_terraria_tshock.Common.Triple.{Safe, Ends-and_then, Ends-unless, Ends-raise_if}
use addons_terraria_tshock.Registry.{unref}
use addons_terraria_tshock.Luasql.{Value, connection, ConnData}
use addons_terraria_tshock.Luasql.Checks.{Ends-check_conn}
use addons_terraria_tshock.Luasql.Counts.{with_field}
use addons_terraria_tshock.Luasql.Refs.{Held}
use addons_terraria_tshock.Luasql.Refs.Objects.{Held-release, Held-unref_field}
use addons_terraria_tshock.Luasql.Sqlite.Api.{Api, SqlConn, Driver}
use addons_terraria_tshock.Luasql.Sqlite.Connection.{conn_name, close_idle, conn_gc, conn_close}
use addons_terraria_tshock.Luasql.Sqlite.Invariant.{
  Heap, Served, Sound, Good, IsCounted, opened, opens, opens-le-one,
}
use addons_terraria_tshock.Luasql.Sqlite.Updates.{Sound-set, Sound-registry}

module _ (api : Api) where
  open api use {Number, World, Stmt, Conn}

  abbrev Stays : ℕ → {A : Type 0} → A → Driver api → Type 0
  Stays n a s = Good api n s

  -- An open connection that counts no cursors has none.
  pub opened_zero :
      (n : ℕ) (s : Driver api) (a : ℕ) (k : ConnData (SqlConn api))
      → n < 2 ^ 32
      → Good api n s
      → get_elem? s.heap a ≡ some (connection k)
      → k.closed ≡ false
      → k.driver.cur_counter ≡ opened api a s.heap
  opened_zero n s a k b h g e = omega (
    arith,
    IsCounted api n s.heap s.registry [] a k h g e,
    total-le_length (opens api a) s.heap (opens-le-one api a),
    h.small,
  )

  Good-close :
      (n : ℕ) (s : Driver api) (a : ℕ) (k : ConnData (SqlConn api))
      → Good api n s
      → get_elem? s.heap a ≡ some (connection k)
      → k.closed ≡ false
      → opened api a s.heap ≡ 0
      → Sound api n
          (set s.heap a (connection (record k { closed = true })))
          (unref k.env s.registry)
          []
  Good-close n s a k h g e z =
      Sound-registry api n s1 s.registry (unref k.env s.registry) (with_field k.env []) []
        (Sound-set api n s.heap s.registry [] (with_field k.env []) a (connection k)
          (connection (record k { closed = true })) h g held (λ y. refl) (λ _. z))
        (Held-unref_field (Served api) k.env [] held)
    where
      s1 : Heap api
      s1 = set s.heap a (connection (record k { closed = true }))

      held :
          Held
            (Served api)
            (set s.heap a (connection (record k { closed = true })))
            s.registry
            (with_field k.env [])
      held = Held-release (Served api) a k (record k { closed = true }) h.held g e refl

  Safe-close_idle :
      (n : ℕ) (s : Driver api) (a : ℕ) (k : ConnData (SqlConn api))
      → n < 2 ^ 32
      → Good api n s
      → get_elem? s.heap a ≡ some (connection k)
      → k.closed ≡ false
      → Safe (Good api n) (close_idle api a k s)
  Safe-close_idle n s a k b h g e =
      Ends-raise_if (Good api n) (λ _. Good api n) (ltb 0 k.driver.cur_counter) _ s _ h
        (λ t.
          Good-close n s a k h g e
            (omega (arith, ltb→ge 0 k.driver.cur_counter t, opened_zero n s a k b h g e)))

  pub Safe-conn_gc :
      (n : ℕ) (s : Driver api) (v : Value Number)
      → n < 2 ^ 32
      → Good api n s
      → Safe (Good api n) (conn_gc api v s)
  unfolding conn_gc
  Safe-conn_gc n s v b h =
      Ends-check_conn (Good api n) (λ _. Good api n) conn_name "" v s h _
        (λ p at.
          Ends-unless (Good api n) (λ _. Good api n) p.1.closed _ s _ (λ e. h)
            (λ e.
              Ends-and_then (Good api n) (λ _. Good api n) (λ _. Good api n)
                (close_idle api p.0 p.1 s) _ (Safe-close_idle n s p.0 p.1 b h at.1 e)
                (λ u t good. good)))

  pub Safe-conn_close :
      (n : ℕ) (s : Driver api) (v : Value Number)
      → n < 2 ^ 32
      → Good api n s
      → Safe (Good api n) (conn_close api v s)
  unfolding conn_close
  Safe-conn_close n s v b h =
      Ends-check_conn (Good api n) (λ _. Good api n) conn_name "" v s h _
        (λ p at.
          Ends-unless (Good api n) (λ _. Good api n) p.1.closed _ s _ (λ e. h)
            (λ e.
              Ends-and_then (Good api n) (λ _. Good api n) (λ _. Good api n)
                (close_idle api p.0 p.1 s) _ (Safe-close_idle n s p.0 p.1 b h at.1 e)
                (λ u t good. good)))

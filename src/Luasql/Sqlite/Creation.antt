-- ===== src/Luasql/Sqlite/Creation.antt =====
-- Lua/include/luasql/ls_sqlite3.h: `create_cursor` keeps the invariant: the connection counts one cursor
-- more, and the references of the cursor are its own.
use addons_terraria_tshock.Common.{
  ℕ, suc, ◌+◌, ◌%◌, ◌^◌, ◌==◌, if◌then◌else◌, false, some, List, [], ◌∷◌, ◌++◌, length, get_elem?,
  set, ◌≡◌, refl, ap, subst, arith, Bool-cases, inl, inr, eq_of_==, ne_of_==, get_elem?-set,
  get_elem?-append_one, total-set, total-append, length-set, length-append, get_elem?-length,
  lt-length,
}
use addons_terraria_tshock.Registry.{Registry, ref}
use addons_terraria_tshock.Luasql.{
  Value, Object, connection, cursor, ConnData, CurData, Scalar, object, columns,
}
use addons_terraria_tshock.Luasql.Refs.{Held, Tied, Held-append, Held-ref}
use addons_terraria_tshock.Luasql.Refs.Objects.{Held-connection}
use addons_terraria_tshock.Luasql.Sqlite.Api.{Api, SqlConn, SqlCur, Driver}
use addons_terraria_tshock.Luasql.Sqlite.Cursor.{count_up, create_cursor, column_texts}
use addons_terraria_tshock.Luasql.Sqlite.Invariant.{
  Heap, Served, opens, opened, Balanced, Sound, IsCounted, opens_own, Good,
}
use addons_terraria_tshock.Common.Triple.{Safe}
use addons_terraria_tshock.Registry.Laws.{IsValid, ref_lem, lookup-ref, lookup-ref_kept}
use addons_terraria_tshock.Luasql.Sqlite.Updates.{Balanced-to, opens_other}

module _ (api : Api) where
  open api use {Number, World, Stmt, Conn}

  -- `create_cursor`: the connection counts one cursor more.
  abbrev after_create : Heap api → ℕ → ConnData (SqlConn api) → CurData (SqlCur api) → Heap api
  after_create heap a k c = set heap a (connection (count_up api k)) ++ (cursor c ∷ [])

  created_balance :
      (n : ℕ) (heap : Heap api) (reg : Registry (Value Number)) (loose : List ℕ)
      (c : CurData (SqlCur api)) (k : ConnData (SqlConn api))
      → Sound api n heap reg loose
      → c.closed ≡ false
      → get_elem? heap c.driver.conn_data ≡ some (connection k)
      → k.closed ≡ false
      → (x m : ℕ) → m ≡ opened api x heap + opens api x (cursor c)
      → Balanced api m (
          if x == length heap
          then some (cursor c)
          else if x == c.driver.conn_data
          then some (connection (count_up api k))
          else get_elem? heap x)
  created_balance n heap reg loose c k h e f open_now x m sum =
      elim (Bool-cases (x == length heap)) [
        | inl s ↦ rw s (fresh (eq_of_== x (length heap) s))
        | inr s ↦ rw s (elim (Bool-cases (x == c.driver.conn_data)) [
          | inl t ↦ rw (t, open_now) (up (eq_of_== x c.driver.conn_data t))
          | inr t ↦ rw t (
              Balanced-to api (opened api x heap) m (get_elem? heap x)
                (omega (arith, sum, opens_other api x c (ne_of_== x c.driver.conn_data t)))
                (h.balanced x))
        ])
      ]
    where
      fresh : x ≡ length heap → m ≡ 0
      fresh s = omega (
        arith,
        sum,
        subst (Balanced api (opened api x heap)) (get_elem?-length heap x (omega (arith, s)))
            (h.balanced x),
        opens_other api x c (λ t. omega (arith, s, t, lt-length heap c.driver.conn_data f)),
      )

      up : x ≡ c.driver.conn_data → (k.driver.cur_counter + 1) % 2 ^ 32 ≡ m % 2 ^ 32
      up s = omega (
        arith,
        IsCounted api n heap reg loose c.driver.conn_data k h f open_now,
        sum,
        ap (λ y. opened api y heap) s,
        ap (λ y. opens api y (cursor c)) s,
        opens_own api c e,
      )

  Sound-create :
      (n : ℕ) (heap : Heap api) (reg new : Registry (Value Number)) (loose rest : List ℕ)
      (c : CurData (SqlCur api)) (k : ConnData (SqlConn api))
      → Sound api n heap reg loose
      → c.closed ≡ false
      → get_elem? heap c.driver.conn_data ≡ some (connection k)
      → k.closed ≡ false
      → Held (Served api) (after_create heap c.driver.conn_data k c) new rest
      → Sound api (suc n) (after_create heap c.driver.conn_data k c) new rest
  Sound-create n heap reg new loose rest c k h e f open_now held = record {
    small = omega (
      arith,
      h.small,
      lengths,
      length-append (set heap c.driver.conn_data (connection (count_up api k))) (cursor c ∷ []),
    );
    held = held;
    balanced = λ x.
        rw
          (
            get_elem?-append_one (set heap c.driver.conn_data (connection (count_up api k)))
                (cursor c) x,
            lengths,
            get_elem?-set heap c.driver.conn_data x (connection (count_up api k)) (connection k) f,
          )
          (created_balance n heap reg loose c k h e f open_now x
            (opened api x (after_create heap c.driver.conn_data k c))
            (omega (
              arith,
              total-set (opens api x) heap c.driver.conn_data (connection k)
                  (connection (count_up api k)) f,
              total-append (opens api x) (set heap c.driver.conn_data (connection (count_up api k)))
                  (cursor c),
            )));
  }
    where
      lengths : length (set heap c.driver.conn_data (connection (count_up api k))) ≡ length heap
      lengths = length-set heap c.driver.conn_data (connection (count_up api k))

  cursor_injective :
      (c d : CurData (SqlCur api))
      → Path (Object (SqlConn api) (SqlCur api)) (cursor c) (cursor d)
      → c ≡ d
  cursor_injective c d e = cc

  module _ (reg : Registry (Value Number)) (self : Value Number)
      (names types : List (Scalar Number)) where
    -- The registry with the three values of a new cursor, and the cursor.
    abbrev one : Registry (Value Number)
    one = (ref self reg).1

    abbrev two : Registry (Value Number)
    two = (ref (columns names) one).1

    abbrev three : Registry (Value Number)
    three = (ref (columns types) two).1

    abbrev made : ℕ → Stmt → ℕ → CurData (SqlCur api)
    made a vm numcols = record {
      closed = false;
      conn = some (ref self reg).0;
      numcols = numcols;
      colnames = some (ref (columns names) one).0;
      coltypes = some (ref (columns types) two).0;
      driver = record { conn_data = a; sql_vm = some vm };
    }

    made-Tied :
        (heap : Heap api) (a : ℕ) (vm : Stmt) (numcols : ℕ) (d : CurData (SqlCur api))
        → Held (Served api) heap reg []
        → self ≡ object a
        → Path (Object (SqlConn api) (SqlCur api)) (cursor (made a vm numcols)) (cursor d)
        → Tied (Served api) three d
    made-Tied heap a vm numcols d h e same =
        subst (Tied (Served api) three) (cursor_injective (made a vm numcols) d same) (
          (ref self reg).0,
          self,
          refl,
          lookup-ref_kept (columns types) self two (ref self reg).0 v2 (
              lookup-ref_kept (columns names) self one (ref self reg).0 v1
                (lookup-ref self reg h.valid)),
          (e, ((ref (columns names) one).0, refl)),
          (
            names,
            lookup-ref_kept (columns types) (columns names) two (ref (columns names) one).0 v2
                (lookup-ref (columns names) one v1),
          ),
          (types, lookup-ref (columns types) two v2),
        )
      where
        v1 : IsValid one
        v1 = (ref_lem self reg h.valid).0

        v2 : IsValid two
        v2 = (ref_lem (columns names) one v1).0

    made-Held :
        (heap : Heap api) (a : ℕ) (vm : Stmt) (numcols : ℕ)
        → Held (Served api) heap reg []
        → self ≡ object a
        → Held (Served api) (heap ++ (cursor (made a vm numcols) ∷ [])) three []
    made-Held heap a vm numcols h e =
        Held-append (Served api) (cursor (made a vm numcols))
          ((ref (columns types) two).0 ∷ (ref (columns names) one).0 ∷ (ref self reg).0 ∷ []) []
          (Held-ref (Served api) (columns types)
            ((ref (columns names) one).0 ∷ (ref self reg).0 ∷ [])
            (Held-ref (Served api) (columns names) ((ref self reg).0 ∷ [])
              (Held-ref (Served api) self [] h)))
          (λ r. omega arith) (λ d same open_now. made-Tied heap a vm numcols d h e same)

  pub Safe-create_cursor :
      (n : ℕ) (s : Driver api) (v : Value Number) (a : ℕ) (k : ConnData (SqlConn api)) (vm : Stmt)
      (numcols : ℕ)
      → Good api n s
      → v ≡ object a
      → get_elem? s.heap a ≡ some (connection k)
      → k.closed ≡ false
      → Safe (Good api (suc n)) (create_cursor api v a k vm numcols s)
  unfolding create_cursor
  Safe-create_cursor n s v a k vm numcols h e g open_now =
      Sound-create n s.heap s.registry (three s.registry v names types) [] []
        (made s.registry v names types a vm numcols) k h refl g open_now
        (made-Held s.registry v names types (set s.heap a (connection (count_up api k))) a vm
          numcols (Held-connection (Served api) a k (count_up api k) [] h.held g refl refl) e)
    where
      names : List (Scalar Number)
      names = column_texts api (λ i. api.column_name vm i s.world) numcols 0

      types : List (Scalar Number)
      types = column_texts api (λ i. api.column_decltype vm i s.world) numcols 0

-- ===== src/Luasql/Sqlite/CursorCalls.antt =====
-- Lua/include/luasql/ls_sqlite3.h: the calls on cursors never crash, and keep the invariant.
use addons_terraria_tshock.Common.{
  ℕ, zero, suc, ◌+◌, Bool, true, false, Option, none, some, List, [], get_elem?, set, ◌≡◌, refl,
  sym, subst, Bool-cases, inl, inr, ◌∙◌, get_elem?-set_ne,
}
use addons_terraria_tshock.Common.Action.{Action, and_then, lift}
use addons_terraria_tshock.Common.Triple.{
  Safe, Fine, Fine-bind, Ends-and_then, Ends-or_crash, Ends-lift, Ends-unless, Ends-weaken,
}
use addons_terraria_tshock.Luasql.{
  Scalar, Value, object, connection, cursor, ConnData, CurData, drop_refs,
}
use addons_terraria_tshock.Luasql.Checks.{Ends-getcursor, Ends-check_cur}
use addons_terraria_tshock.Luasql.Refs.{Named}
use addons_terraria_tshock.Luasql.Rows.{has, by_name, by_name-Fine, names_in}
use addons_terraria_tshock.Luasql.Sqlite.Api.{
  Api, SqlConn, SqlCur, Driver, StepResult, row, done, failed, Column, integer, float, text, blob,
  null, unrecognized,
}
use addons_terraria_tshock.Luasql.Sqlite.Cursor.{
  nullified, cur_nullify, conn_of, stored_at, finalized, finalize, fetch_row, fetch_from,
  after_step, cur_fetch, row_values, push_column, close_open, cur_gc, cur_close, cur_getcolnames,
  cur_getcoltypes, with_numbers, with_names, cursor_name,
}
use addons_terraria_tshock.Luasql.Sqlite.Invariant.{Good, connection_open}
use addons_terraria_tshock.Luasql.Sqlite.Updates.{Sound-nullify, apart}

module _ (api : Api) where
  open api use {Number, World, Stmt}

  -- What an open cursor refers to in a heap where its connection is the same.
  conn_found :
      (n : ℕ) (s t : Driver api) (a : ℕ) (c : CurData (SqlCur api)) (k : ConnData (SqlConn api))
      → Good api n s
      → get_elem? s.heap a ≡ some (cursor c)
      → c.closed ≡ false
      → t.registry ≡ s.registry
      → get_elem? t.heap c.driver.conn_data ≡ some (connection k)
      → conn_of api t (stored_at api t c.conn) ≡ some (c.driver.conn_data, k)
  conn_found n s t a c k h g e same f =
      let (q, v, p, l, (w, names), _, _) = h.held.tied a c g e in rw (p, same, l, w, f) refl

  pub Safe-cur_nullify :
      (n : ℕ) (s : Driver api) (a : ℕ) (c : CurData (SqlCur api))
      → Good api n s
      → get_elem? s.heap a ≡ some (cursor c)
      → c.closed ≡ false
      → Safe (Good api n) (cur_nullify api a c s)
  unfolding cur_nullify drop_refs
  Safe-cur_nullify n s a c h g e =
      let (k, f, open_now) = connection_open api n s.heap s.registry [] a c h g e in
      let t : Driver api = record s { heap = set s.heap a (cursor (nullified api c)) } in
      let still =
        get_elem?-set_ne s.heap a c.driver.conn_data (cursor (nullified api c))
          (apart api s.heap a c.driver.conn_data c k g f)
        ∙ f in
      Ends-or_crash (Good api n) (λ _. Good api n) (λ t. conn_of api t (stored_at api t c.conn)) t _
        (c.driver.conn_data, k) (conn_found n s t a c k h g e refl still)
        (Sound-nullify api n s.heap s.registry a c k h g e f open_now)

  push_column-Fine : (c : Column Number) → Fine (push_column api c)
  unfolding push_column
  push_column-Fine (integer z) = tt
  push_column-Fine (float z) = tt
  push_column-Fine (text z) = tt
  push_column-Fine (blob z) = tt
  push_column-Fine null = tt
  push_column-Fine unrecognized = tt

  row_values-Fine : (f : ℕ → Column Number) (n i : ℕ) → Fine (row_values api f n i)
  unfolding row_values
  row_values-Fine f zero i = tt
  row_values-Fine f (suc n) i =
      Fine-bind (push_column api (f i)) _ (push_column-Fine (f i))
        (λ v. Fine-bind (row_values api f n (i + 1)) _ (row_values-Fine f n (i + 1)) (λ vs. tt))

  module _ (n : ℕ) (s : Driver api) (a : ℕ) (c : CurData (SqlCur api)) (h : Good api n s)
      (g : get_elem? s.heap a ≡ some (cursor c)) (e : c.closed ≡ false) where
    -- The second case has another message.
    Safe-finalized : (fine : Bool) → Safe (Good api n) (finalized api a c fine s)
    Safe-finalized true =
        Ends-and_then (Good api n) (λ _. Good api n) (λ _. Good api n) (cur_nullify api a c s) _
          (Safe-cur_nullify n s a c h g e) (λ u t good. good)
    Safe-finalized false =
        let (k, f, open_now) = connection_open api n s.heap s.registry [] a c h g e in
        Ends-or_crash (Good api n) (λ _. Good api n)
          (λ t. conn_of api t (some (object c.driver.conn_data))) s _ (c.driver.conn_data, k)
          (rw f refl)
          (Ends-and_then (Good api n) (λ _. Good api n) (λ _. Good api n) (cur_nullify api a c s) _
            (Safe-cur_nullify n s a c h g e) (λ u t good. good))

    names_found : (l : List (Scalar Number)) × (names_in (stored_at api s c.colnames) ≡ some l)
    names_found =
        let (q, v, p, _, (w, (r, same)), named, _) = h.held.tied a c g e in
        named_found c.colnames r same named
      where
        named_found :
            (o : Option ℕ) (r : ℕ)
            → o ≡ some r
            → Named s.registry o
            → (l : List (Scalar Number)) × (names_in (stored_at api s o) ≡ some l)
        named_found none r same m = cc
        named_found (some q) r same (l, at) = (l, rw at refl)

    -- A row that is fetched changes no state of the driver.
    abbrev Same : Driver api → Type 0
    Same t = t ≡ s

    Same-values :
        {B : Type 0} (w : World) (vm : Stmt) (k : List (Scalar Number) → Action (Driver api) B)
        → ((vs : List (Scalar Number)) → Safe Same (k vs s))
        → Safe Same (and_then (lift (row_values api (λ i. api.column vm i w) c.numcols 0) s) k)
    Same-values w vm k f =
        Ends-lift Same (λ _. Same) (row_values api (λ i. api.column vm i w) c.numcols 0) s k
          (row_values-Fine (λ i. api.column vm i w) c.numcols 0) refl f

    with_numbers-Same :
        (vm : Stmt) (opts : List ℕ) (t : List (Scalar Number × Scalar Number))
        → Safe Same (with_numbers api c vm opts t s)
    unfolding with_numbers
    with_numbers-Same vm opts t = elim (Bool-cases (has b'n' opts)) [
      | inl b ↦ rw b (Same-values s.world vm _ (λ vs. refl))
      | inr b ↦ rw b refl
    ]

    with_names-Same :
        (vm : Stmt) (opts : List ℕ) (t : List (Scalar Number × Scalar Number))
        → Safe Same (with_names api c vm opts t s)
    unfolding with_names
    with_names-Same vm opts t = elim (Bool-cases (has b'a' opts)) [
      | inl b ↦ rw b (
          let (names, found) = names_found in
          Ends-or_crash Same (λ _. Same) (λ t. names_in (stored_at api t c.colnames)) s _ names
            found
            (Same-values s.world vm _ (λ vs.
              Ends-lift Same (λ _. Same) (by_name names vs) s _ (by_name-Fine names vs) refl
                (λ rows. refl))))
      | inr b ↦ rw b refl
    ]

    fetch_row-Same :
        (vm : Stmt) (target : Option (List (Scalar Number × Scalar Number))) (opts : List ℕ)
        → Safe Same (fetch_row api c vm target opts s)
    unfolding fetch_row
    fetch_row-Same vm none opts = Same-values s.world vm _ (λ vs. refl)
    fetch_row-Same vm (some t) opts =
        Ends-and_then Same (λ _. Same) (λ _. Same) (with_numbers api c vm opts t s) _
          (with_numbers-Same vm opts t)
          (λ t1 u same. rw same (
            Ends-and_then Same (λ _. Same) (λ _. Same) (with_names api c vm opts t1 s) _
              (with_names-Same vm opts t1) (λ t2 u same. same)))

    Safe-fetch_row :
        (vm : Stmt) (target : Option (List (Scalar Number × Scalar Number))) (opts : List ℕ)
        → Safe (Good api n) (fetch_row api c vm target opts s)
    Safe-fetch_row vm target opts =
        Ends-weaken (fetch_row api c vm target opts s) good (λ _. good)
          (fetch_row-Same vm target opts)
      where
        good : (t : Driver api) → t ≡ s → Good api n t
        good t same = subst (Good api n) (sym same) h

    Safe-close_open : Safe (Good api n) (close_open api a c s)
    Safe-close_open =
        Safe-cur_nullify n (record s { world = (api.finalize_vm c.driver.sql_vm s.world).1 }) a c h
          g e

  Safe-finalize :
      (n : ℕ) (s : Driver api) (a : ℕ) (c : CurData (SqlCur api))
      → Good api n s
      → get_elem? s.heap a ≡ some (cursor c)
      → c.closed ≡ false
      → Safe (Good api n) (finalize api a c s)
  unfolding finalize
  Safe-finalize n s a c h g e =
      let (fine, w) = api.finalize_vm c.driver.sql_vm s.world in
      Safe-finalized n (record s { world = w }) a c h g e fine

  Safe-after_step :
      (n : ℕ) (s : Driver api) (a : ℕ) (c : CurData (SqlCur api)) (vm : Stmt)
      (target : Option (List (Scalar Number × Scalar Number))) (opts : List ℕ) (res : StepResult)
      → Good api n s
      → get_elem? s.heap a ≡ some (cursor c)
      → c.closed ≡ false
      → Safe (Good api n) (after_step api a c vm target opts res s)
  Safe-after_step n s a c vm target opts row h g e = Safe-fetch_row n s a c h g e vm target opts
  Safe-after_step n s a c vm target opts done h g e = Safe-finalize n s a c h g e
  Safe-after_step n s a c vm target opts failed h g e = Safe-finalize n s a c h g e

  Safe-fetch_from :
      (n : ℕ) (s : Driver api) (a : ℕ) (c : CurData (SqlCur api)) (vm : Option Stmt)
      (target : Option (List (Scalar Number × Scalar Number))) (opts : List ℕ)
      → Good api n s
      → get_elem? s.heap a ≡ some (cursor c)
      → c.closed ≡ false
      → Safe (Good api n) (fetch_from api a c vm target opts s)
  Safe-fetch_from n s a c none target opts h g e = h
  Safe-fetch_from n s a c (some vm) target opts h g e =
      let (res, w) = api.step vm s.world in
      Safe-after_step n (record s { world = w }) a c vm target opts res h g e

  module _ (n : ℕ) (s : Driver api) (v : Value Number) (h : Good api n s) where
    pub Safe-cur_fetch :
        (target : Option (List (Scalar Number × Scalar Number))) (opts : List ℕ)
        → Safe (Good api n) (cur_fetch api v target opts s)
    unfolding cur_fetch
    Safe-cur_fetch target opts =
        Ends-getcursor (Good api n) (λ _. Good api n) cursor_name _ v s h _
          (λ p at e. Safe-fetch_from n s p.0 p.1 p.1.driver.sql_vm target opts h at.1 e)

    pub Safe-cur_gc : Safe (Good api n) (cur_gc api v s)
    unfolding cur_gc
    Safe-cur_gc =
        Ends-check_cur (Good api n) (λ _. Good api n) cursor_name "" v s h _
          (λ p at.
            Ends-unless (Good api n) (λ _. Good api n) p.1.closed _ s _ (λ e. h)
              (λ e.
                Ends-and_then (Good api n) (λ _. Good api n) (λ _. Good api n)
                  (close_open api p.0 p.1 s) _ (Safe-close_open n s p.0 p.1 h at.1 e)
                  (λ u t good. good)))

    pub Safe-cur_close : Safe (Good api n) (cur_close api v s)
    unfolding cur_close
    Safe-cur_close =
        Ends-check_cur (Good api n) (λ _. Good api n) cursor_name "" v s h _
          (λ p at.
            Ends-unless (Good api n) (λ _. Good api n) p.1.closed _ s _ (λ e. h)
              (λ e.
                Ends-and_then (Good api n) (λ _. Good api n) (λ _. Good api n)
                  (close_open api p.0 p.1 s) _ (Safe-close_open n s p.0 p.1 h at.1 e)
                  (λ u t good. good)))

    pub Safe-cur_getcolnames : Safe (Good api n) (cur_getcolnames api v s)
    unfolding cur_getcolnames
    Safe-cur_getcolnames =
        Ends-getcursor (Good api n) (λ _. Good api n) cursor_name _ v s h _ (λ p at e. h)

    pub Safe-cur_getcoltypes : Safe (Good api n) (cur_getcoltypes api v s)
    unfolding cur_getcoltypes
    Safe-cur_getcoltypes =
        Ends-getcursor (Good api n) (λ _. Good api n) cursor_name _ v s h _ (λ p at e. h)

-- ===== src/Luasql/Sqlite/Updates.antt =====
-- Lua/include/luasql/ls_sqlite3.h: the writes of the calls keep the invariant.
use addons_terraria_tshock.Common.{
  ℕ, suc, ◌+◌, ◌-◌, ◌%◌, ◌^◌, ◌==◌, if◌then◌else◌, false, Option, some, List, [], ◌∷◌, ◌++◌, length,
  get_elem?, set, ◌≡◌, ◌≢◌, refl, sym, ap, subst, ◌∙◌, arith, Bool-cases, inl, inr, eq_of_==,
  ne_of_==, get_elem?-set, get_elem?-append_one, total-set, total-append, length-set, length-append,
  get_elem?-length, get_elem?-set_ne,
}
use addons_terraria_tshock.Registry.{Registry, unref}
use addons_terraria_tshock.Luasql.{Value, Object, connection, cursor, ConnData, CurData}
use addons_terraria_tshock.Luasql.Counts.{fields}
use addons_terraria_tshock.Luasql.Refs.{Held}
use addons_terraria_tshock.Luasql.Refs.Objects.{Held-connection, Held-clear, Held-fields}
use addons_terraria_tshock.Luasql.Sqlite.Api.{Api, SqlConn, SqlCur}
use addons_terraria_tshock.Luasql.Sqlite.Cursor.{count_down, nullified}
use addons_terraria_tshock.Luasql.Sqlite.Invariant.{
  Heap, Served, opens, opened, Balanced, Sound, IsCounted, opens_own,
}

module _ (api : Api) where
  open api use {Number}

  abbrev Obj : Type 0
  Obj = Object (SqlConn api) (SqlCur api)

  pub Balanced-to : (m n : ℕ) (o : Option Obj) → m ≡ n → Balanced api m o → Balanced api n o
  Balanced-to m n o e b = subst (λ m. Balanced api m o) e b

  -- One object changes, and which cursors are open does not.
  pub Sound-set :
      (n : ℕ) (heap : Heap api) (reg : Registry (Value Number)) (loose rest : List ℕ) (i : ℕ)
      (o p : Obj)
      → Sound api n heap reg loose
      → get_elem? heap i ≡ some o
      → Held (Served api) (set heap i p) reg rest
      → ((y : ℕ) → opens api y p ≡ opens api y o)
      → (Balanced api (opened api i heap) (some o) → Balanced api (opened api i heap) (some p))
      → Sound api n (set heap i p) reg rest
  Sound-set n heap reg loose rest i o p h g held same at = record {
    small = omega (arith, h.small, length-set heap i p);
    held = held;
    balanced = λ x. rw (get_elem?-set heap i x p o g) (
        Balanced-to (opened api x heap) (opened api x (set heap i p))
          (if x == i then some p else get_elem? heap x)
          (omega (arith, total-set (opens api x) heap i o p g, same x))
          (elim (Bool-cases (x == i)) [
            | inl e ↦ rw e (
                subst (λ j. Balanced api (opened api j heap) (some p)) (sym (eq_of_== x i e))
                  (at (subst (Balanced api (opened api i heap)) g (h.balanced i))))
            | inr e ↦ rw e (h.balanced x)
          ]));
  }

  -- A new object that is no cursor.
  pub Sound-append :
      (n : ℕ) (heap : Heap api) (reg new : Registry (Value Number)) (loose rest : List ℕ) (o : Obj)
      → Sound api n heap reg loose
      → Held (Served api) (heap ++ (o ∷ [])) new rest
      → ((y : ℕ) → opens api y o ≡ 0)
      → Balanced api 0 (some o)
      → Sound api (suc n) (heap ++ (o ∷ [])) new rest
  Sound-append n heap reg new loose rest o h held none_open b = record {
    small = omega (arith, h.small, length-append heap (o ∷ []));
    held = held;
    balanced = λ x. rw (get_elem?-append_one heap o x) (
        Balanced-to (opened api x heap) (opened api x (heap ++ (o ∷ [])))
          (if x == length heap then some o else get_elem? heap x)
          (omega (arith, total-append (opens api x) heap o, none_open x))
          (elim (Bool-cases (x == length heap)) [
            | inl e ↦
                rw e
                  (subst (λ m. Balanced api m (some o)) (unused x (eq_of_== x (length heap) e)) b)
            | inr e ↦ rw e (h.balanced x)
          ]));
  }
    where
      unused : (x : ℕ) → x ≡ length heap → 0 ≡ opened api x heap
      unused x e = sym (
          subst (Balanced api (opened api x heap)) (get_elem?-length heap x (omega (arith, e)))
            (h.balanced x))

  -- Only the registry changes.
  pub Sound-registry :
      (n : ℕ) (heap : Heap api) (reg new : Registry (Value Number)) (loose rest : List ℕ)
      → Sound api n heap reg loose
      → Held (Served api) heap new rest
      → Sound api n heap new rest
  Sound-registry n heap reg new loose rest h held = record {
    small = h.small;
    held = held;
    balanced = h.balanced;
  }

  pub opens_other :
      (x : ℕ) (c : CurData (SqlCur api)) → x ≢ c.driver.conn_data → opens api x (cursor c) ≡ 0
  opens_other x c h = ground arith

  -- `cur_nullify`: the connection counts one cursor less.
  nullified_balance :
      (n : ℕ) (heap : Heap api) (reg : Registry (Value Number)) (loose : List ℕ) (a : ℕ)
      (c : CurData (SqlCur api)) (k : ConnData (SqlConn api))
      → Sound api n heap reg loose
      → get_elem? heap a ≡ some (cursor c)
      → c.closed ≡ false
      → get_elem? heap c.driver.conn_data ≡ some (connection k)
      → k.closed ≡ false
      → (x m : ℕ) → m + opens api x (cursor c) ≡ opened api x heap
      → Balanced api m (
          if x == c.driver.conn_data
          then some (connection (count_down api k))
          else if x == a
          then some (cursor (nullified api c))
          else get_elem? heap x)
  nullified_balance n heap reg loose a c k h g e f open_now x m sum =
      elim (Bool-cases (x == c.driver.conn_data)) [
        | inl s ↦ rw (s, open_now) (down (eq_of_== x c.driver.conn_data s))
        | inr s ↦ rw s (elim (Bool-cases (x == a)) [
          | inl t ↦ rw t (other (eq_of_== x a t))
          | inr t ↦ rw t (
              Balanced-to (opened api x heap) m (get_elem? heap x)
                (omega (arith, sum, opens_other x c (ne_of_== x c.driver.conn_data s)))
                (h.balanced x))
        ])
      ]
    where
      down : x ≡ c.driver.conn_data → (k.driver.cur_counter + 2 ^ 32 - 1) % 2 ^ 32 ≡ m % 2 ^ 32
      down s = omega (
        arith,
        IsCounted api n heap reg loose c.driver.conn_data k h f open_now,
        sum,
        ap (λ y. opened api y heap) s,
        ap (λ y. opens api y (cursor c)) s,
        opens_own api c e,
      )

      other : x ≡ a → m ≡ 0
      other t = omega (
        arith,
        sum,
        subst (Balanced api (opened api x heap)) (ap (get_elem? heap) t ∙ g) (h.balanced x),
      )

  abbrev after_nullify : Heap api → ℕ → CurData (SqlCur api) → ConnData (SqlConn api) → Heap api
  after_nullify heap a c k =
      set (set heap a (cursor (nullified api c))) c.driver.conn_data (connection (count_down api k))

  -- A cursor and a connection are at different addresses.
  pub apart :
      (heap : Heap api) (a b : ℕ) (c : CurData (SqlCur api)) (k : ConnData (SqlConn api))
      → get_elem? heap a ≡ some (cursor c)
      → get_elem? heap b ≡ some (connection k)
      → b ≢ a
  apart heap a b c k g f same = no_both (sym (ap (get_elem? heap) same ∙ g) ∙ f)
    where
      no_both : Path (Option Obj) (some (cursor c)) (some (connection k)) → ⊥
      no_both e = cc

  pub Sound-nullify :
      (n : ℕ) (heap : Heap api) (reg : Registry (Value Number)) (a : ℕ) (c : CurData (SqlCur api))
      (k : ConnData (SqlConn api))
      → Sound api n heap reg []
      → get_elem? heap a ≡ some (cursor c)
      → c.closed ≡ false
      → get_elem? heap c.driver.conn_data ≡ some (connection k)
      → k.closed ≡ false
      → Sound api n
          (after_nullify heap a c k)
          (unref c.coltypes (unref c.colnames (unref c.conn reg)))
          []
  Sound-nullify n heap reg a c k h g e f open_now = record {
    small = omega (
      arith,
      h.small,
      length-set heap a (cursor (nullified api c)),
      length-set (set heap a (cursor (nullified api c))) c.driver.conn_data
          (connection (count_down api k)),
    );
    held = Held-fields (Served api) c (
        Held-connection (Served api) c.driver.conn_data k (count_down api k) (fields c)
          (Held-clear (Served api) a c (nullified api c) h.held g e refl) still refl refl);
    balanced = λ x.
        rw
          (
            get_elem?-set (set heap a (cursor (nullified api c))) c.driver.conn_data x
                (connection (count_down api k)) (connection k) still,
            get_elem?-set heap a x (cursor (nullified api c)) (cursor c) g,
          )
          (nullified_balance n heap reg [] a c k h g e f open_now x
            (opened api x (after_nullify heap a c k))
            (omega (
              arith,
              total-set (opens api x) heap a (cursor c) (cursor (nullified api c)) g,
              total-set (opens api x) (set heap a (cursor (nullified api c))) c.driver.conn_data
                  (connection k) (connection (count_down api k)) still,
            )));
  }
    where
      still :
          get_elem? (set heap a (cursor (nullified api c))) c.driver.conn_data ≡ some (connection k)
      still =
          get_elem?-set_ne heap a c.driver.conn_data (cursor (nullified api c))
            (apart heap a c.driver.conn_data c k g f)
          ∙ f

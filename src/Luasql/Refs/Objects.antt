-- ===== src/Luasql/Refs/Objects.antt =====
-- Lua/include/luasql: the changes that the calls of both drivers make to objects and references.
use addons_terraria_tshock.Common.{
  ℕ, true, false, Option, none, some, List, [], ◌∷◌, ◌++◌, get_elem?, set, ◌≡◌, refl, arith,
}
use addons_terraria_tshock.Registry.{Registry, ref, unref}
use addons_terraria_tshock.Registry.Laws.{lookup-empty}
use addons_terraria_tshock.Luasql.{
  Value, Object, environment, connection, cursor, ConnData, CurData, EnvData,
}
use addons_terraria_tshock.Luasql.Counts.{with_field, count-with_field, fields}
use addons_terraria_tshock.Luasql.Refs.{Held, Held-ref, Held-unref, Held-append, Held-set}

module _ {N K C : Type 0} (P : CurData C → Value N → Type 0) where
  module _ {heap : List (Object K C)} {reg : Registry (Value N)} where
    -- A reference that is LUA_NOREF or loose can be given back.
    pub Held-unref_field :
        (o : Option ℕ) (loose : List ℕ)
        → Held P heap reg (with_field o loose)
        → Held P heap (unref o reg) loose
    unfolding unref
    Held-unref_field none loose h = h
    Held-unref_field (some r) loose h = Held-unref P r loose h

    -- A cursor that is closed leaves its references loose.
    pub Held-clear :
        (i : ℕ) (c d : CurData C)
        → Held P heap reg []
        → get_elem? heap i ≡ some (cursor c)
        → c.closed ≡ false
        → d.closed ≡ true
        → Held P (set heap i (cursor d)) reg (fields c)
    Held-clear i c d h g e f =
        Held-set P i (cursor c) (cursor d) [] (fields c) h g
          (λ r.
            rw
              (
                e,
                f,
                count-with_field r c.conn (with_field c.colnames (with_field c.coltypes [])),
                count-with_field r c.colnames (with_field c.coltypes []),
                count-with_field r c.coltypes [],
              )
              (omega arith))
          (λ b same open_now. absurd (closed_open b same open_now))
      where
        closed_open :
            (b : CurData C) → Path (Object K C) (cursor d) (cursor b) → b.closed ≡ false → ⊥
        closed_open b same open_now = cc

    -- A connection that keeps what it owns.
    pub Held-connection :
        (i : ℕ) (k l : ConnData K) (loose : List ℕ)
        → Held P heap reg loose
        → get_elem? heap i ≡ some (connection k)
        → l.closed ≡ k.closed
        → l.env ≡ k.env
        → Held P (set heap i (connection l)) reg loose
    Held-connection i k l loose h g e f =
        Held-set P i (connection k) (connection l) loose loose h g (λ r. rw (e, f) (omega arith))
          (λ b same open_now. cc)

  module _ {heap : List (Object K C)} {reg : Registry (Value N)} where
    -- The references of a cursor are given back.
    pub Held-fields :
        (c : CurData C)
        → Held P heap reg (fields c)
        → Held P heap (unref c.coltypes (unref c.colnames (unref c.conn reg))) []
    Held-fields c h = Held-unref_field c.coltypes [] (
        Held-unref_field c.colnames (with_field c.coltypes [])
          (Held-unref_field c.conn (with_field c.colnames (with_field c.coltypes [])) h))

  module _ {heap : List (Object K C)} {reg : Registry (Value N)} where
    -- A connection that is closed leaves its environment's reference loose.
    pub Held-release :
        (i : ℕ) (k l : ConnData K)
        → Held P heap reg []
        → get_elem? heap i ≡ some (connection k)
        → k.closed ≡ false
        → l.closed ≡ true
        → Held P (set heap i (connection l)) reg (with_field k.env [])
    Held-release i k l h g e f =
        Held-set P i (connection k) (connection l) [] (with_field k.env []) h g
          (λ r. rw (e, f, count-with_field r k.env []) (omega arith)) (λ c same open_now. cc)

    -- A new connection, whose reference is new too.
    pub Held-connect :
        (v : Value N) (k : K)
        → Held P heap reg []
        → Held P
            (heap
              ++ (connection (record { closed = false; env = some (ref v reg).0; driver = k })
                  ∷ []))
            (ref v reg).1
            []
    Held-connect v k h =
        Held-append P (connection (record { closed = false; env = some (ref v reg).0; driver = k }))
          ((ref v reg).0 ∷ []) [] (Held-ref P v [] h) (λ r. omega arith) (λ c same open_now. cc)

    pub Held-environment :
        (i : ℕ) (e d : EnvData)
        → Held P heap reg []
        → get_elem? heap i ≡ some (environment e)
        → Held P (set heap i (environment d)) reg []
    Held-environment i e d h g =
        Held-set P i (environment e) (environment d) [] [] h g (λ r. omega arith)
          (λ c same open_now. cc)

    pub Held-new_environment :
        (e : EnvData) → Held P heap reg [] → Held P (heap ++ (environment e ∷ [])) reg []
    Held-new_environment e h =
        Held-append P (environment e) [] [] h (λ r. omega arith) (λ c same open_now. cc)

  -- Without objects and values.
  pub Held-initial : Held {K = K} P [] (record { free = 0; slots = [] }) []
  Held-initial = record {
    valid = ([], refl);
    accounted = λ r. rw (lookup-empty r) refl;
    tied = λ i c e open_now. cc;
  }

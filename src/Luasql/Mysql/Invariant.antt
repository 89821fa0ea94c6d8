-- ===== src/Luasql/Mysql/Invariant.antt =====
-- Lua/include/luasql/ls_mysql.h: what holds between any two calls of the driver, and how the writes of
-- the calls on cursors keep it.
use addons_terraria_tshock.Common.{
  ℕ, false, Option, none, some, List, [], ◌∷◌, ◌++◌, get_elem?, set, ◌≡◌, refl, subst, arith,
}
use addons_terraria_tshock.Registry.{Registry, ref}
use addons_terraria_tshock.Registry.Laws.{IsValid, ref_lem, lookup-ref, lookup-ref_kept}
use addons_terraria_tshock.Luasql.{Scalar, Value, object, columns, Object, cursor, CurData}
use addons_terraria_tshock.Luasql.Refs.{Held, Tied, Held-ref, Held-set, Held-append}
use addons_terraria_tshock.Luasql.Mysql.Api.{Api, Driver}

module _ (api : Api) where
  open api use {Number, Conn, Result}

  abbrev pub Heap : Type 0
  Heap = List (Object Conn Result)

  -- Names and types of columns are stored together.
  abbrev pub Both : Option ℕ → Option ℕ → Type 0
  Both none none = Unit
  Both (some q) (some r) = Unit
  Both _ _ = ⊥

  abbrev pub Served : CurData Result → Value Number → Type 0
  Served c v = Both c.colnames c.coltypes × ((b : ℕ) × (v ≡ object b))

  abbrev pub Good : Driver api → Type 0
  Good s = Held Served s.heap s.registry []

  cursor_injective :
      (c d : CurData Result) → Path (Object Conn Result) (cursor c) (cursor d) → c ≡ d
  cursor_injective c d e = cc

  module _ (reg : Registry (Value Number)) (names types : List (Scalar Number)) where
    -- The registry with the two tables of `create_colinfo`, and the cursor that refers to them.
    abbrev with_types : Registry (Value Number)
    with_types = (ref (columns types) reg).1

    abbrev with_both : Registry (Value Number)
    with_both = (ref (columns names) with_types).1

    abbrev described : CurData Result → CurData Result
    described c = record c {
      colnames = some (ref (columns names) with_types).0;
      coltypes = some (ref (columns types) reg).0;
    }

    described-Tied :
        (c d : CurData Result)
        → IsValid reg
        → Tied Served reg c
        → Path (Object Conn Result) (cursor (described c)) (cursor d)
        → Tied Served with_both d
    described-Tied c d valid (q, v, e, l, (_, at), _, _) same =
        subst (Tied Served with_both) (cursor_injective (described c) d same) (
          q,
          v,
          e,
          lookup-ref_kept (columns names) v with_types q v1
              (lookup-ref_kept (columns types) v reg q valid l),
          (tt, at),
          (names, lookup-ref (columns names) with_types v1),
          (
            types,
            lookup-ref_kept (columns names) (columns types) with_types (ref (columns types) reg).0
                v1 (lookup-ref (columns types) reg valid),
          ),
        )
      where
        v1 : IsValid with_types
        v1 = (ref_lem (columns types) reg valid).0

    pub described-Held :
        (heap : Heap) (a : ℕ) (c : CurData Result)
        → Held Served heap reg []
        → get_elem? heap a ≡ some (cursor c)
        → c.closed ≡ false
        → c.colnames ≡ none
        → c.coltypes ≡ none
        → Held Served (set heap a (cursor (described c))) with_both []
    described-Held heap a c h g open_now e f =
        Held-set Served a (cursor c) (cursor (described c))
          ((ref (columns names) with_types).0 ∷ (ref (columns types) reg).0 ∷ []) []
          (Held-ref Served (columns names) ((ref (columns types) reg).0 ∷ [])
            (Held-ref Served (columns types) [] h))
          g (λ r. rw (open_now, e, f) (omega arith))
          (λ d same _. described-Tied c d h.valid (h.tied a c g open_now) same)

  -- A new cursor of the connection v.
  abbrev pub made : Registry (Value Number) → Value Number → Result → ℕ → CurData Result
  made reg v result cols = record {
    closed = false;
    conn = some (ref v reg).0;
    numcols = cols;
    colnames = none;
    coltypes = none;
    driver = result;
  }

  pub made-Held :
      (heap : Heap) (reg : Registry (Value Number)) (a : ℕ) (v : Value Number) (result : Result)
      (cols : ℕ)
      → Held Served heap reg []
      → v ≡ object a
      → Held Served (heap ++ (cursor (made reg v result cols) ∷ [])) (ref v reg).1 []
  made-Held heap reg a v result cols h e =
      Held-append Served (cursor (made reg v result cols)) ((ref v reg).0 ∷ []) []
        (Held-ref Served v [] h) (λ r. omega arith)
        (λ d same _.
          subst (Tied Served (ref v reg).1) (cursor_injective (made reg v result cols) d same)
            ((ref v reg).0, v, refl, lookup-ref v reg h.valid, (tt, (a, e)), tt, tt))

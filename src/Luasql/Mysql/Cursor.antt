-- ===== src/Luasql/Mysql/Cursor.antt =====
-- Lua/include/luasql/ls_mysql.h: cursors.
use Prim.Native.String.{String}
use addons_terraria_tshock.Common.{
  ℕ, if◌then◌else◌, true, false, not, Option, none, some, List, [], ◌∷◌, ◌++◌, map,
}
use addons_terraria_tshock.Common.Int.{pos}
use addons_terraria_tshock.Common.Action.{
  Action, ◌>>=◌, ◌>>◌, pure, gets, modify, unless, lift, or_crash,
}
use addons_terraria_tshock.Registry.{lookup}
use addons_terraria_tshock.Luasql.{
  Scalar, nil, boolean, number, Value, scalar, object, columns, table, CurData, cursor, check_cur,
  getcursor, put, calls, drop_refs, new_userdata, ref_value,
}
use addons_terraria_tshock.Luasql.Rows.{has, by_number, by_name, names_in}
use addons_terraria_tshock.Luasql.Mysql.Api.{Api, Driver, Call}
use addons_terraria_tshock.Luasql.Mysql.Columns.{row_values, names_from, types_from}

abbrev pub cursor_name : String
cursor_name = "MySQL cursor expected"

module _ (api : Api) where
  open api use {Number, World, Result}

  abbrev Cur : Type 0
  Cur = CurData Result

  abbrev pub get_cur : Value Number → Action (Driver api) (ℕ × Cur)
  get_cur v = getcursor cursor_name "cursor is closed" v

  abbrev pub runs : (World → World) → Action (Driver api) (Unit {0})
  runs f = modify (λ s. record s { world = f s.world })

  abbrev pub stored_at : Driver api → Option ℕ → Option (Value Number)
  stored_at s none = none
  stored_at s (some r) = lookup s.registry r

  -- `create_colinfo` of the cursor at address a, and the cursor afterwards. The types are stored first.
  unfoldable pub create_colinfo : ℕ → Cur → Action (Driver api) Cur
  create_colinfo a c = do
    w ← gets (λ s. s.world)
    types ← ref_value (columns (types_from api (λ i. api.fetch_field c.driver i w) c.numcols 0))
    names ← ref_value (columns (names_from api (λ i. api.fetch_field c.driver i w) c.numcols 0))
    put a (cursor (record c { colnames = some names; coltypes = some types }))
    pure (record c { colnames = some names; coltypes = some types })

  -- `cur_nullify` of the cursor at address a.
  unfoldable pub cur_nullify : ℕ → Cur → Action (Driver api) (Unit {0})
  cur_nullify a c = do
    put a (cursor (record c { closed = true }))
    runs (api.free_result c.driver)
    drop_refs c

  abbrev pub with_numbers :
      Cur
      → (ℕ → Option (List ℕ))
      → List ℕ
      → List (Scalar Number × Scalar Number)
      → List (Scalar Number × Scalar Number)
  with_numbers c row opts t =
      if has b'n' opts then t ++ by_number api.to_number (row_values row c.numcols 0) 0 else t

  -- The names of columns are there once they were asked for.
  abbrev pub named : ℕ → Cur → Option ℕ → Action (Driver api) Cur
  named a c none = create_colinfo a c
  named a c (some r) = pure c

  unfoldable pub with_names :
      ℕ
      → Cur
      → (ℕ → Option (List ℕ))
      → List ℕ
      → List (Scalar Number × Scalar Number)
      → Action (Driver api) (List (Scalar Number × Scalar Number))
  unfolding create_colinfo
  with_names a c row opts t =
      if has b'a' opts
      then (do
        d ← named a c c.colnames
        names ← or_crash (λ s. names_in (stored_at s d.colnames))
        rows ← lift (by_name names (row_values row c.numcols 0))
        pure (t ++ rows))
      else pure t

  abbrev pub fetched :
      ℕ
      → Cur
      → Option (List (Scalar Number × Scalar Number))
      → List ℕ
      → Option (ℕ → Option (List ℕ))
      → Call api
  fetched a c target opts none = do cur_nullify a c; pure (scalar nil ∷ [])
  fetched a c none opts (some row) = pure (map scalar (row_values row c.numcols 0))
  fetched a c (some t) opts (some row) = do
    t2 ← with_names a c row opts (with_numbers c row opts t)
    pure (table t2 ∷ [])

  -- The row is copied to the table that is the second argument, or to results. The options are those
  -- of `luaL_optstring(L, 3, "n")`.
  unfoldable pub cur_fetch :
      Value Number → Option (List (Scalar Number × Scalar Number)) → List ℕ → Call api
  unfolding cur_nullify with_names
  cur_fetch v target opts = do
    (a, c) ← get_cur v
    row ← calls (api.fetch_row c.driver)
    fetched a c target opts row

  unfoldable pub cur_gc : Value Number → Call api
  cur_gc v = do (a, c) ← check_cur cursor_name v; unless c.closed (cur_nullify a c); pure []

  unfoldable pub cur_close : Value Number → Call api
  cur_close v = do
    (a, c) ← check_cur cursor_name v
    unless c.closed (cur_nullify a c)
    pure (scalar (boolean (not c.closed)) ∷ [])

  -- `_pushtable` of the field that `off` reads, which is o before.
  abbrev pub pushtable : ℕ → Cur → (Cur → Option ℕ) → Option ℕ → Call api
  pushtable a c off none = do
    d ← create_colinfo a c
    v ← or_crash (λ s. stored_at s (off d))
    pure (v ∷ [])
  pushtable a c off (some r) = do v ← or_crash (λ s. stored_at s (some r)); pure (v ∷ [])

  unfoldable pub cur_getcolnames : Value Number → Call api
  cur_getcolnames v = do (a, c) ← get_cur v; pushtable a c (λ d. d.colnames) c.colnames

  unfoldable pub cur_getcoltypes : Value Number → Call api
  cur_getcoltypes v = do (a, c) ← get_cur v; pushtable a c (λ d. d.coltypes) c.coltypes

  unfoldable pub cur_numrows : Value Number → Call api
  cur_numrows v = do
    (a, c) ← get_cur v
    gets (λ s. scalar (number (api.to_number (pos (api.num_rows c.driver s.world)))) ∷ [])

  -- The reference to the connection is LUA_NOREF before it is taken, and no call between looks.
  unfoldable pub create_cursor : Value Number → Result → ℕ → Call api
  create_cursor conn result cols = do
    r ← ref_value conn
    a ← new_userdata (
        cursor (record {
          closed = false;
          conn = some r;
          numcols = cols;
          colnames = none;
          coltypes = none;
          driver = result;
        }))
    pure (object a ∷ [])

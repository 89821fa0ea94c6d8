-- ===== src/Luasql/Mysql/CursorCalls.antt =====
-- Lua/include/luasql/ls_mysql.h: the calls on cursors never crash, and keep the invariant.
use addons_terraria_tshock.Common.{
  ℕ, true, false, Option, none, some, List, get_elem?, sym, get_elem?-set, ==_self, ◌≡◌, refl, ap,
  ◌∙◌, Bool-cases, inl, inr,
}
use addons_terraria_tshock.Common.Triple.{
  Ends, Safe, Ends-and_then, Ends-or_crash, Ends-lift, Ends-unless, Ends-weaken,
}
use addons_terraria_tshock.Luasql.{Scalar, Value, columns, cursor, CurData, drop_refs}
use addons_terraria_tshock.Luasql.Checks.{Ends-getcursor, Ends-check_cur}
use addons_terraria_tshock.Luasql.Refs.{Named}
use addons_terraria_tshock.Luasql.Refs.Objects.{Held-clear, Held-fields}
use addons_terraria_tshock.Luasql.Rows.{has, by_name, by_name-Fine, names_in}
use addons_terraria_tshock.Luasql.Mysql.Api.{Api, Driver}
use addons_terraria_tshock.Luasql.Mysql.Columns.{row_values, names_from, types_from}
use addons_terraria_tshock.Luasql.Mysql.Cursor.{
  cursor_name, stored_at, create_colinfo, cur_nullify, with_numbers, named, with_names, fetched,
  cur_fetch, cur_gc, cur_close, pushtable, cur_getcolnames, cur_getcoltypes, cur_numrows,
}
use addons_terraria_tshock.Luasql.Mysql.Invariant.{Both, Served, Good, described-Held}

module _ (api : Api) where
  open api use {Number, World, Result}

  pub Safe-cur_nullify :
      (s : Driver api) (a : ℕ) (c : CurData Result)
      → Good api s
      → get_elem? s.heap a ≡ some (cursor c)
      → c.closed ≡ false
      → Safe (Good api) (cur_nullify api a c s)
  unfolding cur_nullify drop_refs
  Safe-cur_nullify s a c h g e =
      Held-fields (Served api) c
        (Held-clear (Served api) a c (record c { closed = true }) h g e refl)

  -- A cursor after a call that gives it its tables: it is in the heap, open, and the field is there.
  abbrev Described : ℕ → CurData Result → Driver api → Type 0
  Described a d s =
      Good api s
      × (get_elem? s.heap a ≡ some (cursor d))
      × (d.closed ≡ false)
      × ((r : ℕ) × (d.colnames ≡ some r))
      × ((r : ℕ) × (d.coltypes ≡ some r))

  create_colinfo-Described :
      (s : Driver api) (a : ℕ) (c : CurData Result)
      → Good api s
      → get_elem? s.heap a ≡ some (cursor c)
      → c.closed ≡ false
      → c.colnames ≡ none
      → c.coltypes ≡ none
      → Ends (Good api) (Described a) (create_colinfo api a c s)
  unfolding create_colinfo
  create_colinfo-Described s a c h g e f1 f2 = (
    described-Held api s.registry
        (names_from api (λ i. api.fetch_field c.driver i s.world) c.numcols 0)
        (types_from api (λ i. api.fetch_field c.driver i s.world) c.numcols 0) s.heap a c h g e f1
        f2,
    get_elem?-set s.heap a a _ (cursor c) g ∙ rw (==_self a) refl,
    e,
    (_, refl),
    (_, refl),
  )

  -- Both fields are there, or neither is.
  Both-tied :
      (s : Driver api) (a : ℕ) (c : CurData Result)
      → Good api s
      → get_elem? s.heap a ≡ some (cursor c)
      → c.closed ≡ false
      → Both api c.colnames c.coltypes
  Both-tied s a c h g e = let (q, v, _, _, (b, _), _, _) = h.tied a c g e in b

  -- A reference to a table of an open cursor leads to the table.
  found_names :
      (s : Driver api) (o : Option ℕ) (r : ℕ)
      → o ≡ some r
      → Named s.registry o
      → (l : List (Scalar Number)) × (stored_at api s o ≡ some (columns l))
  found_names s none r same m = cc
  found_names s (some q) r same (l, at) = (l, at)

  Both-none : (o p : Option ℕ) → Both api o p → o ≡ none → p ≡ none
  Both-none none none b e = refl
  Both-none (some q) p b e = cc
  Both-none none (some q) b e = absurd b

  Both-none_left : (o p : Option ℕ) → Both api o p → p ≡ none → o ≡ none
  Both-none_left none none b e = refl
  Both-none_left o (some q) b e = cc
  Both-none_left (some q) none b e = absurd b

  module _ (s : Driver api) (a : ℕ) (c : CurData Result) (h : Good api s)
      (g : get_elem? s.heap a ≡ some (cursor c)) (e : c.closed ≡ false) where
    -- The names are there after `named`, and a cursor that has them is as it was.
    abbrev HasNames : CurData Result → Driver api → Type 0
    HasNames d t =
        Good api t × ((l : List (Scalar Number)) × (stored_at api t d.colnames ≡ some (columns l)))

    names_of_Described : (d : CurData Result) (t : Driver api) → Described a d t → HasNames d t
    names_of_Described d t (h, g, e, (r, f), _) =
        let (_, _, _, _, _, n, _) = h.tied a d g e in (h, found_names t d.colnames r f n)

    named-HasNames : (o : Option ℕ) → c.colnames ≡ o → Ends (Good api) HasNames (named api a c o s)
    named-HasNames none f =
        Ends-weaken (create_colinfo api a c s) (λ t i. i) names_of_Described
          (create_colinfo-Described s a c h g e f
            (Both-none c.colnames c.coltypes (Both-tied s a c h g e) f))
    named-HasNames (some r) f =
        let (_, _, _, _, _, n, _) = h.tied a c g e in (h, found_names s c.colnames r f n)

    Safe-with_names :
        (row : ℕ → Option (List ℕ)) (opts : List ℕ) (t : List (Scalar Number × Scalar Number))
        → Safe (Good api) (with_names api a c row opts t s)
    unfolding with_names
    Safe-with_names row opts t = elim (Bool-cases (has b'a' opts)) [
      | inl b ↦ rw b (
          Ends-and_then (Good api) HasNames (λ _. Good api) (named api a c c.colnames s) _
            (named-HasNames c.colnames refl)
            (λ d u (good, (names, found)).
              Ends-or_crash (Good api) (λ _. Good api) (λ s. names_in (stored_at api s d.colnames))
                u _ names (rw found refl)
                (Ends-lift (Good api) (λ _. Good api) (by_name names (row_values row c.numcols 0)) u
                  _ (by_name-Fine names (row_values row c.numcols 0)) good (λ rows. good))))
      | inr b ↦ rw b h
    ]

    Safe-fetched :
        (target : Option (List (Scalar Number × Scalar Number))) (opts : List ℕ)
        (row : Option (ℕ → Option (List ℕ)))
        → Safe (Good api) (fetched api a c target opts row s)
    Safe-fetched target opts none =
        Ends-and_then (Good api) (λ _. Good api) (λ _. Good api) (cur_nullify api a c s) _
          (Safe-cur_nullify s a c h g e) (λ u t good. good)
    Safe-fetched none opts (some row) = h
    Safe-fetched (some t) opts (some row) =
        Ends-and_then (Good api) (λ _. Good api) (λ _. Good api)
          (with_names api a c row opts (with_numbers api c row opts t) s) _
          (Safe-with_names row opts (with_numbers api c row opts t)) (λ u t good. good)

    Safe-colnames :
        (o : Option ℕ) → c.colnames ≡ o → Safe (Good api) (pushtable api a c (λ d. d.colnames) o s)
    Safe-colnames none f =
        Ends-and_then (Good api) (Described a) (λ _. Good api) (create_colinfo api a c s) _
          (create_colinfo-Described s a c h g e f
            (Both-none c.colnames c.coltypes (Both-tied s a c h g e) f))
          (λ d t (h, g, e, (r, f), _).
            let (_, _, _, _, _, n, _) = h.tied a d g e in
            let (l, found) = found_names t d.colnames r f n in
            Ends-or_crash (Good api) (λ _. Good api) (λ s. stored_at api s d.colnames) t _
              (columns l) found h)
    Safe-colnames (some r) f =
        let (_, _, _, _, _, n, _) = h.tied a c g e in
        let (l, found) = found_names s c.colnames r f n in
        Ends-or_crash (Good api) (λ _. Good api) (λ s. stored_at api s (some r)) s _ (columns l)
          (ap (stored_at api s) (sym f) ∙ found) h

    Safe-coltypes :
        (o : Option ℕ) → c.coltypes ≡ o → Safe (Good api) (pushtable api a c (λ d. d.coltypes) o s)
    Safe-coltypes none f =
        Ends-and_then (Good api) (Described a) (λ _. Good api) (create_colinfo api a c s) _
          (create_colinfo-Described s a c h g e
            (Both-none_left c.colnames c.coltypes (Both-tied s a c h g e) f) f)
          (λ d t (h, g, e, _, (r, f)).
            let (_, _, _, _, _, _, n) = h.tied a d g e in
            let (l, found) = found_names t d.coltypes r f n in
            Ends-or_crash (Good api) (λ _. Good api) (λ s. stored_at api s d.coltypes) t _
              (columns l) found h)
    Safe-coltypes (some r) f =
        let (_, _, _, _, _, _, n) = h.tied a c g e in
        let (l, found) = found_names s c.coltypes r f n in
        Ends-or_crash (Good api) (λ _. Good api) (λ s. stored_at api s (some r)) s _ (columns l)
          (ap (stored_at api s) (sym f) ∙ found) h

  module _ (s : Driver api) (v : Value Number) (h : Good api s) where
    pub Safe-cur_fetch :
        (target : Option (List (Scalar Number × Scalar Number))) (opts : List ℕ)
        → Safe (Good api) (cur_fetch api v target opts s)
    unfolding cur_fetch
    Safe-cur_fetch target opts =
        Ends-getcursor (Good api) (λ _. Good api) cursor_name _ v s h _
          (λ p at e.
            let (row, w) = api.fetch_row p.1.driver s.world in
            Safe-fetched (record s { world = w }) p.0 p.1 h at.1 e target opts row)

    pub Safe-cur_gc : Safe (Good api) (cur_gc api v s)
    unfolding cur_gc
    Safe-cur_gc =
        Ends-check_cur (Good api) (λ _. Good api) cursor_name "" v s h _
          (λ p at.
            Ends-unless (Good api) (λ _. Good api) p.1.closed _ s _ (λ e. h)
              (λ e.
                Ends-and_then (Good api) (λ _. Good api) (λ _. Good api) (cur_nullify api p.0 p.1 s)
                  _ (Safe-cur_nullify s p.0 p.1 h at.1 e) (λ u t good. good)))

    pub Safe-cur_close : Safe (Good api) (cur_close api v s)
    unfolding cur_close
    Safe-cur_close =
        Ends-check_cur (Good api) (λ _. Good api) cursor_name "" v s h _
          (λ p at.
            Ends-unless (Good api) (λ _. Good api) p.1.closed _ s _ (λ e. h)
              (λ e.
                Ends-and_then (Good api) (λ _. Good api) (λ _. Good api) (cur_nullify api p.0 p.1 s)
                  _ (Safe-cur_nullify s p.0 p.1 h at.1 e) (λ u t good. good)))

    pub Safe-cur_getcolnames : Safe (Good api) (cur_getcolnames api v s)
    unfolding cur_getcolnames
    Safe-cur_getcolnames =
        Ends-getcursor (Good api) (λ _. Good api) cursor_name _ v s h _
          (λ p at e. Safe-colnames s p.0 p.1 h at.1 e p.1.colnames refl)

    pub Safe-cur_getcoltypes : Safe (Good api) (cur_getcoltypes api v s)
    unfolding cur_getcoltypes
    Safe-cur_getcoltypes =
        Ends-getcursor (Good api) (λ _. Good api) cursor_name _ v s h _
          (λ p at e. Safe-coltypes s p.0 p.1 h at.1 e p.1.coltypes refl)

    pub Safe-cur_numrows : Safe (Good api) (cur_numrows api v s)
    unfolding cur_numrows
    Safe-cur_numrows = Ends-getcursor (Good api) (λ _. Good api) cursor_name _ v s h _ (λ p at e. h)

-- ===== src/Luasql/Refs.antt =====
-- Lua/include/luasql: the references of the open objects into the registry. Each reference is owned
-- by one field of one open object, or is in the hands of the call that runs (`loose`).
pub mod Objects
use addons_terraria_tshock.Common.{
  ℕ, zero, suc, ◌+◌, ◌≤◌, ◌==◌, if◌then◌else◌, Bool, true, false, Option, none, some, List, [], ◌∷◌,
  ◌++◌, length, get_elem?, set, ◌≡◌, ◌≢◌, refl, sym, ap, ◌∙◌, arith, Bool-cases, Option-cases, inl,
  inr, eq_of_==, ne_of_==, ==_self, get_elem?-set, get_elem?-append_one, total, total-set,
  total-append, le-total,
}
use addons_terraria_tshock.Registry.{Registry, lookup, ref, unref}
use addons_terraria_tshock.Registry.Laws.{IsValid, ref_lem, unref_lem}
use addons_terraria_tshock.Luasql.Counts.{
  some_injective, is_ref, count, with_field, live, is_ref_self, taken_lem, taken_same, given_lem,
  given_same, fields,
}
use addons_terraria_tshock.Luasql.{
  Value, object, columns, Object, environment, connection, cursor, ConnData, CurData, State,
  EnvData, Scalar,
}

module _ {K C : Type 0} where
  -- How often an object owns the reference r.
  abbrev pub owns : ℕ → Object K C → ℕ
  owns r (environment e) = 0
  owns r (connection k) = if k.closed then 0 else is_ref r k.env
  owns r (cursor c) =
      if c.closed then 0 else is_ref r c.conn + (is_ref r c.colnames + is_ref r c.coltypes)

  abbrev pub uses : ℕ → List (Object K C) → ℕ
  uses r heap = total (owns r) heap

module _ {N : Type 0} where
  -- A field for a table of columns is LUA_NOREF or refers to one.
  abbrev pub Named : Registry (Value N) → Option ℕ → Type 0
  Named reg none = Unit
  Named reg (some q) = (l : List (Scalar N)) × (lookup reg q ≡ some (columns l))

  -- What a cursor owns is all that it needs of the registry.
  Named-change :
      (reg new : Registry (Value N)) (o : Option ℕ)
      → ((q : ℕ) → 1 ≤ is_ref q o → lookup new q ≡ lookup reg q)
      → Named reg o
      → Named new o
  Named-change reg new none h n = n
  Named-change reg new (some q) h (l, e) = (l, h q (rw (==_self q) (omega arith)) ∙ e)

module _ {N C : Type 0} where
  -- The cursor keeps its connection, by P, and its tables alive.
  abbrev pub Tied : (CurData C → Value N → Type 0) → Registry (Value N) → CurData C → Type 0
  Tied P reg c =
      (q : ℕ) × (v : Value N) × (c.conn ≡ some q)
      × (lookup reg q ≡ some v)
      × P c v
      × Named reg c.colnames
      × Named reg c.coltypes

module _ {N C : Type 0} (P : CurData C → Value N → Type 0) where
  Tied-change :
      (K : Type 0) (reg new : Registry (Value N)) (c : CurData C)
      → c.closed ≡ false
      → ((q : ℕ) → 1 ≤ owns {K = K} q (cursor c) → lookup new q ≡ lookup reg q)
      → Tied P reg c
      → Tied P new c
  Tied-change K reg new c open_now h (q, v, e, l, p, n, t) = (
    q,
    v,
    e,
    h q (rw (open_now, e, ==_self q) (omega arith)) ∙ l,
    p,
    Named-change reg new c.colnames (λ r o. h r (rw open_now (omega arith))) n,
    Named-change reg new c.coltypes (λ r o. h r (rw open_now (omega arith))) t,
  )

module _ {N K C : Type 0} (P : CurData C → Value N → Type 0) where
  -- A reference holds a value exactly when it is owned or loose, and it has one owner. No open cursor
  -- dangles.
  pub record Held (heap : List (Object K C)) (reg : Registry (Value N)) (loose : List ℕ)
      : Type 0 where
    pub valid : IsValid reg
    pub accounted : (r : ℕ) → uses r heap + count r loose ≡ live (lookup reg r)
    pub tied :
        (i : ℕ) (c : CurData C)
        → get_elem? heap i ≡ some (cursor c)
        → c.closed ≡ false
        → Tied P reg c

  module _ {heap : List (Object K C)} {reg : Registry (Value N)} where
    -- An open cursor's references are live.
    owned_live :
        (loose : List ℕ) (i : ℕ) (c : CurData C) (q : ℕ)
        → Held heap reg loose
        → get_elem? heap i ≡ some (cursor c)
        → 1 ≤ owns {K = K} q (cursor c)
        → 1 + count q loose ≤ live (lookup reg q)
    owned_live loose i c q h e own =
        omega (arith, h.accounted q, le-total (owns q) heap i (cursor c) e)

    -- A new reference is loose.
    pub Held-ref :
        (v : Value N) (loose : List ℕ)
        → Held heap reg loose
        → Held heap (ref v reg).1 ((ref v reg).0 ∷ loose)
    Held-ref v loose h =
        let (valid, fresh, at) = ref_lem v reg h.valid in
        record {
          valid = valid;
          accounted = λ q. rw (at q) (taken q fresh (h.accounted q));
          tied = λ i c e open_now.
              Tied-change P K reg (ref v reg).1 c open_now
                (λ q own. at q ∙ kept q fresh (owned_live loose i c q h e own))
                (h.tied i c e open_now);
        }
      where
        taken :
            (q : ℕ)
            → lookup reg (ref v reg).0 ≡ none
            → uses q heap + count q loose ≡ live (lookup reg q)
            → uses q heap + (is_ref q (some (ref v reg).0) + count q loose)
              ≡ live (if q == (ref v reg).0 then some v else lookup reg q)
        taken q fresh a =
            taken_lem q (ref v reg).0 (uses q heap) (count q loose) (lookup reg q) v
              (λ e. ap (lookup reg) e ∙ fresh) a

        kept :
            (q : ℕ)
            → lookup reg (ref v reg).0 ≡ none
            → 1 + count q loose ≤ live (lookup reg q)
            → (if q == (ref v reg).0 then some v else lookup reg q) ≡ lookup reg q
        kept q fresh a =
            taken_same q (ref v reg).0 (count q loose) (lookup reg q) v
              (λ e. ap (lookup reg) e ∙ fresh) a

    -- A loose reference can be given back.
    pub Held-unref :
        (r : ℕ) (loose : List ℕ) → Held heap reg (r ∷ loose) → Held heap (unref (some r) reg) loose
    Held-unref r loose h = elim (Option-cases (lookup reg r)) [
      | inl e ↦ absurd (omega (arith, h.accounted r, ap live e, is_ref_self r))
      | inr (v, e) ↦
          let (valid, at) = unref_lem r v reg h.valid e in
          record {
            valid = valid;
            accounted = λ q. rw (at q) (given q (h.accounted q));
            tied = λ i c f open_now.
                Tied-change P K reg (unref (some r) reg) c open_now
                  (λ q own. at q ∙ kept q (owned_live (r ∷ loose) i c q h f own))
                  (h.tied i c f open_now);
          }
    ]
      where
        given :
            (q : ℕ)
            → uses q heap + (is_ref q (some r) + count q loose) ≡ live (lookup reg q)
            → uses q heap + count q loose ≡ live (if q == r then none else lookup reg q)
        given q a = given_lem q r (uses q heap) (count q loose) (lookup reg q) a

        kept :
            (q : ℕ)
            → 1 + (is_ref q (some r) + count q loose) ≤ live (lookup reg q)
            → (if q == r then none else lookup reg q) ≡ lookup reg q
        kept q a = given_same q r (count q loose) (lookup reg q) a

    -- A new object takes over loose references.
    pub Held-append :
        (o : Object K C) (loose rest : List ℕ)
        → Held heap reg loose
        → ((r : ℕ) → owns r o + count r rest ≡ count r loose)
        → ((c : CurData C) → o ≡ cursor c → c.closed ≡ false → Tied P reg c)
        → Held (heap ++ (o ∷ [])) reg rest
    Held-append o loose rest h k t = record {
      valid = h.valid;
      accounted = λ r. omega (arith, h.accounted r, total-append (owns r) heap o, k r);
      tied = λ i c e open_now. appended i c e open_now;
    }
      where
        appended :
            (i : ℕ) (c : CurData C)
            → get_elem? (heap ++ (o ∷ [])) i ≡ some (cursor c)
            → c.closed ≡ false
            → Tied P reg c
        appended i c e open_now = elim (Bool-cases (i == length heap)) [
          | inl same ↦
              t c (some_injective (sym (get_elem?-append_one heap o i ∙ rw same refl) ∙ e)) open_now
          | inr other ↦
              h.tied i c (sym (get_elem?-append_one heap o i ∙ rw other refl) ∙ e) open_now
        ]

    -- An object that changes gives up references, which are loose, or takes loose ones over.
    pub Held-set :
        (i : ℕ) (o p : Object K C) (loose rest : List ℕ)
        → Held heap reg loose
        → get_elem? heap i ≡ some o
        → ((r : ℕ) → owns r p + count r rest ≡ owns r o + count r loose)
        → ((c : CurData C) → p ≡ cursor c → c.closed ≡ false → Tied P reg c)
        → Held (set heap i p) reg rest
    Held-set i o p loose rest h g k t = record {
      valid = h.valid;
      accounted = λ r. omega (arith, h.accounted r, total-set (owns r) heap i o p g, k r);
      tied = λ j c e open_now. changed j c e open_now;
    }
      where
        changed :
            (j : ℕ) (c : CurData C)
            → get_elem? (set heap i p) j ≡ some (cursor c)
            → c.closed ≡ false
            → Tied P reg c
        changed j c e open_now = elim (Bool-cases (j == i)) [
          | inl same ↦
              t c (some_injective (sym (get_elem?-set heap i j p o g ∙ rw same refl) ∙ e)) open_now
          | inr other ↦ h.tied j c (sym (get_elem?-set heap i j p o g ∙ rw other refl) ∙ e) open_now
        ]

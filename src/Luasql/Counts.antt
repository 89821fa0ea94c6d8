-- ===== src/Luasql/Counts.antt =====
-- Lua/include/luasql: how often a reference is held, when it is taken and given back.
use addons_terraria_tshock.Common.{
  ℕ, ◌+◌, ◌≤◌, ◌==◌, if◌then◌else◌, Option, none, some, List, [], ◌∷◌, ◌≡◌, refl, arith, Bool-cases,
  inl, inr, eq_of_==,
}
use addons_terraria_tshock.Luasql.{CurData}

pub some_injective : {A : Type 0} {x y : A} → some x ≡ some y → x ≡ y
some_injective e = cc

-- How often a field is the reference r, and a list has it.
abbrev pub is_ref : ℕ → Option ℕ → ℕ
is_ref r none = 0
is_ref r (some q) = if q == r then 1 else 0

abbrev pub count : ℕ → List ℕ → ℕ
count r [] = 0
count r (q ∷ qs) = is_ref r (some q) + count r qs

-- What a field that is cleared leaves loose.
abbrev pub with_field : Option ℕ → List ℕ → List ℕ
with_field none loose = loose
with_field (some r) loose = r ∷ loose

pub count-with_field :
    (r : ℕ) (o : Option ℕ) (loose : List ℕ)
    → count r (with_field o loose) ≡ is_ref r o + count r loose
count-with_field r none loose = omega arith
count-with_field r (some q) loose = refl

-- The references of a cursor.
abbrev pub fields : {C : Type 0} → CurData C → List ℕ
fields c = with_field c.conn (with_field c.colnames (with_field c.coltypes []))

abbrev pub live : {V : Type 0} → Option V → ℕ
live none = 0
live (some v) = 1

pub is_ref_self : (r : ℕ) → is_ref r (some r) ≡ 1
is_ref_self r = ground arith

-- The account of one reference q, when r is taken or given back.
module _ {V : Type 0} where
  live-le-one : (o : Option V) → live o ≤ 1
  live-le-one none = omega arith
  live-le-one (some v) = omega arith

  pub taken_lem :
      (q r u n : ℕ) (o : Option V) (v : V)
      → (q ≡ r → o ≡ none)
      → u + n ≡ live o
      → u + (is_ref q (some r) + n) ≡ live (if q == r then some v else o)
  taken_lem q r u n o v f h = elim (Bool-cases (q == r)) [
    | inl e ↦ ground (arith, f (eq_of_== q r e))
    | inr e ↦ ground arith
  ]

  pub taken_same :
      (q r n : ℕ) (o : Option V) (v : V)
      → (q ≡ r → o ≡ none)
      → 1 + n ≤ live o
      → (if q == r then some v else o) ≡ o
  taken_same q r n o v f h = elim (Bool-cases (q == r)) [
    | inl e ↦ ground (arith, f (eq_of_== q r e))
    | inr e ↦ rw e refl
  ]

  pub given_lem :
      (q r u n : ℕ) (o : Option V)
      → u + (is_ref q (some r) + n) ≡ live o
      → u + n ≡ live (if q == r then none else o)
  given_lem q r u n o h = elim (Bool-cases (q == r)) [
    | inl e ↦ ground (arith, live-le-one o)
    | inr e ↦ ground arith
  ]

  pub given_same :
      (q r n : ℕ) (o : Option V)
      → 1 + (is_ref q (some r) + n) ≤ live o
      → (if q == r then none else o) ≡ o
  given_same q r n o h = elim (Bool-cases (q == r)) [
    | inl e ↦ ground (arith, live-le-one o)
    | inr e ↦ rw e refl
  ]

-- ===== src/Registry/Laws.antt =====
-- Lua/src/lauxlib.cpp: references as a table from fresh numbers to values.
use addons_terraria_tshock.Common.{
  ℕ, zero, suc, ◌==◌, if◌then◌else◌, Option, none, some, List, [], ◌∷◌, ◌++◌, length, get_elem?,
  set, All, ◌≡◌, ◌≢◌, refl, sym, ap, subst, ◌∙◌, arith, ==_self, suc_ne_zero, Bool-cases, inl, inr,
  eq_of_==, get_elem?-set, get_elem?-set_ne, get_elem?-append, get_elem?-append_one,
  get_elem?-length,
}
use addons_terraria_tshock.Registry.{
  Slot, stored, next, Registry, slot, value_of, lookup, ref, unref,
}

module _ {V : Type 0} where
  -- From f on the free list visits these slots, and no slot twice.
  abbrev pub Chain : List (Slot V) → ℕ → List ℕ → Type 0
  Chain s f [] = f ≡ 0
  Chain s f (i ∷ is) =
      (f ≡ suc i) × (n : ℕ) × (get_elem? s i ≡ some (next n)) × All (λ j. j ≢ i) is × Chain s n is

  abbrev pub IsValid : Registry V → Type 0
  IsValid r = (is : List ℕ) × Chain r.slots r.free is

  -- A slot that holds a value is not free.
  stored_apart :
      (s : List (Slot V)) (f i : ℕ) (v : V) (is : List ℕ)
      → Chain s f is
      → get_elem? s i ≡ some (stored v)
      → All (λ j. j ≢ i) is
  stored_apart s f i v [] c e = tt
  stored_apart s f i v (j ∷ is) (p, n, q, a, c) e = (λ same. cc, stored_apart s n i v is c e)

  Chain-set :
      (s : List (Slot V)) (f i : ℕ) (x : Slot V) (is : List ℕ)
      → Chain s f is
      → All (λ j. j ≢ i) is
      → Chain (set s i x) f is
  Chain-set s f i x [] c h = c
  Chain-set s f i x (j ∷ is) (p, n, q, a, c) (h, hs) =
      (p, n, get_elem?-set_ne s i j x h ∙ q, a, Chain-set s n i x is c hs)

  Chain-append :
      (s : List (Slot V)) (f : ℕ) (x : Slot V) (is : List ℕ)
      → Chain s f is
      → Chain (s ++ (x ∷ [])) f is
  Chain-append s f x [] c = c
  Chain-append s f x (j ∷ is) (p, n, q, a, c) =
      (p, n, get_elem?-append s (x ∷ []) j q, a, Chain-append s n x is c)

  abbrev Fresh : V → Registry V → Type 0
  Fresh v r =
      IsValid (ref v r).1
      × (lookup r (ref v r).0 ≡ none)
      × ((j : ℕ) → lookup (ref v r).1 j ≡ (if j == (ref v r).0 then some v else lookup r j))

  ref_parts :
      (v : V) (s : List (Slot V)) (f : ℕ) (is : List ℕ)
      → Chain s f is
      → Fresh v (record { free = f; slots = s })
  unfolding ref lookup
  ref_parts v s zero [] c =
      (([], refl), ap value_of (get_elem?-length s (length s) (omega arith)), λ j. at j)
    where
      at :
          (j : ℕ)
          → value_of (slot (record { free = 0; slots = s ++ (stored v ∷ []) }) j) ≡ (
              if j == suc (length s)
              then some v
              else value_of (slot (record { free = 0; slots = s }) j))
      at zero = ground arith
      at (suc j) = ground (arith, get_elem?-append_one s (stored v) j)
  ref_parts v s zero (i ∷ is) c = absurd (omega (arith, c.0))
  ref_parts v s (suc f) [] c = absurd (omega arith)
  ref_parts v s (suc f) (i ∷ is) (p, n, q, a, c) = rw (suc_ne_zero f) (
    (
      is,
      rw e (
          subst (λ (k : ℕ). Chain (set s k (stored v)) n is) (sym same)
            (Chain-set s n i (stored v) is c a)),
    ),
    ap value_of e,
    λ j. at j,
  )
    where
      same : f ≡ i
      same = omega (arith, p)

      e : get_elem? s f ≡ some (next n)
      e = ap (get_elem? s) same ∙ q

      at :
          (j : ℕ)
          → value_of (slot (record { free = 0; slots = set s f (stored v) }) j)
            ≡ (if j == suc f then some v else value_of (slot (record { free = 0; slots = s }) j))
      at zero = ground arith
      at (suc j) = ground (arith, get_elem?-set s f j (stored v) (next n) e)

  -- On a table with a well-formed free list, the reference that `luaL_ref` gives held no value and now
  -- holds its value. All others are unchanged, and the free list stays well formed.
  pub ref_lem :
      (v : V) (r : Registry V)
      → IsValid r
      → IsValid (ref v r).1
        × (lookup r (ref v r).0 ≡ none)
        × ((j : ℕ) → lookup (ref v r).1 j ≡ (if j == (ref v r).0 then some v else lookup r j))
  ref_lem v r (is, c) = ref_parts v r.slots r.free is c

  unref_parts :
      (i : ℕ) (v : V) (r : Registry V) (is : List ℕ)
      → Chain r.slots r.free is
      → get_elem? r.slots i ≡ some (stored v)
      → (j : ℕ) → lookup (unref (some (suc i)) r) j ≡ (if j == suc i then none else lookup r j)
  unfolding unref lookup
  unref_parts i v r is c e zero = ground arith
  unref_parts i v r is c e (suc j) =
      ground (arith, get_elem?-set r.slots i j (next r.free) (stored v) e)

  stored_slot : (o : Option (Slot V)) (v : V) → value_of o ≡ some v → o ≡ some (stored v)
  stored_slot none v e = cc
  stored_slot (some (stored w)) v e = ground arith
  stored_slot (some (next n)) v e = cc

  -- On a table with a well-formed free list, a reference that held a value holds none after
  -- `luaL_unref`. All others are unchanged, and the free list stays well formed.
  pub unref_lem :
      (i : ℕ) (v : V) (r : Registry V)
      → IsValid r
      → lookup r i ≡ some v
      → IsValid (unref (some i) r)
        × ((j : ℕ) → lookup (unref (some i) r) j ≡ (if j == i then none else lookup r j))
  unfolding unref lookup
  unref_lem zero v r (is, c) e = cc
  unref_lem (suc i) v r (is, c) e =
      let held = stored_slot (get_elem? r.slots i) v e in
      let apart = stored_apart r.slots r.free i v is c held in
      (
        (
          i ∷ is,
          (
            refl,
            r.free,
            get_elem?-set r.slots i i (next r.free) (stored v) held ∙ rw (==_self i) refl,
            apart,
            Chain-set r.slots r.free i (next r.free) is c apart,
          ),
        ),
        unref_parts i v r is c held,
      )

  -- What is stored is found, and what was stored before stays.
  pub lookup-ref : (v : V) (r : Registry V) → IsValid r → lookup (ref v r).1 (ref v r).0 ≡ some v
  lookup-ref v r h =
      let (_, _, at) = ref_lem v r h in at (ref v r).0 ∙ rw (==_self (ref v r).0) refl

  pub lookup-ref_kept :
      (v w : V) (r : Registry V) (i : ℕ)
      → IsValid r
      → lookup r i ≡ some w
      → lookup (ref v r).1 i ≡ some w
  lookup-ref_kept v w r i h e =
      let (_, fresh, at) = ref_lem v r h in
      at i ∙ (elim (Bool-cases (i == (ref v r).0)) [
        | inl same ↦ absurd (clash (sym (ap (lookup r) (eq_of_== i (ref v r).0 same) ∙ fresh) ∙ e))
        | inr other ↦ rw other e
      ])
    where
      clash : Path (Option V) none (some w) → ⊥
      clash same = cc

  pub lookup-empty : (i : ℕ) → lookup {V = V} (record { free = 0; slots = [] }) i ≡ none
  unfolding lookup
  lookup-empty zero = refl
  lookup-empty (suc i) = refl

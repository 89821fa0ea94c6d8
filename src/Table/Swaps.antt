-- ===== src/Table/Swaps.antt =====
-- Lua/src/ltablib.cpp: the swaps of `table.sort` permute the elements.
use addons_terraria_tshock.Common.{
  ℕ, zero, suc, ◌≤◌, ◌<◌, ◌==◌, Bool, true, false, some, List, [], ◌∷◌, get_elem?, set, length, ◌≡◌,
  refl, ◌∙◌, arith, total, total-set, length-set, get_elem?-set, Bool-cases, inl, inr,
}
use addons_terraria_tshock.Common.Outcome.{Outcome, ok, ◌>>=◌, Yields, Yields-bind}
use addons_terraria_tshock.Table.Sort.{raw_get, swap, order, order_middle}

module _ {V : Type 0} where
  abbrev pub Within : List V → ℕ → Type 0
  Within a i = (1 ≤ i) × (i ≤ length a)

  -- The same number of elements, and the same total of any weight: the same elements, as often.
  abbrev pub Permutes : List V → List V → Type 0
  Permutes a b = (length b ≡ length a) × ((f : V → ℕ) → total f b ≡ total f a)

module _ {V : Type 0} (less : V → V → Outcome Bool) where
  element : (a : List V) (i : ℕ) → i < length a → (v : V) × (get_elem? a i ≡ some v)
  element [] i h = absurd (omega arith)
  element (x ∷ a) zero h = (x, refl)
  element (x ∷ a) (suc i) h = element a i (omega arith)

  -- An element within the bounds is read.
  pub raw_get-Within : (a : List V) (i : ℕ) → Within a i → (v : V) × (raw_get less a i ≡ ok v)
  unfolding raw_get
  raw_get-Within a zero h = absurd (omega arith)
  raw_get-Within a (suc i) h = let (v, e) = element a i (omega arith) in (v, rw e refl)

  pub swap-Permutes :
      (a : List V) (i j : ℕ) → Within a i → Within a j → Yields (Permutes a) (swap less a i j)
  unfolding swap raw_get
  swap-Permutes a zero j h k = absurd (omega arith)
  swap-Permutes a (suc i) zero h k = absurd (omega arith)
  swap-Permutes a (suc i) (suc j) h k =
      let (v, e) = element a i (omega arith) in
      let (w, g) = element a j (omega arith) in
      rw (e, g)
        (
          omega (arith, length-set a i w, length-set (set a i w) j v),
          λ f. omega (arith, total-set f a i v w e, total-set f (set a i w) j w v (still v w e g)),
        )
    where
      still :
          (v w : V)
          → get_elem? a i ≡ some v
          → get_elem? a j ≡ some w
          → get_elem? (set a i w) j ≡ some w
      still v w e g =
          get_elem?-set a i j w v e
          ∙ (elim (Bool-cases (j == i)) [ inl s ↦ rw s refl | inr s ↦ rw s g ])

  module _ (fine : (v w : V) → Yields (λ _. Unit) (less v w)) where
    -- A comparison decides between two branches that both keep a property.
    pub less-branch :
        {B : Type 0} (Q : B → Type 0) (v w : V) (k : Bool → Outcome B)
        → Yields Q (k true)
        → Yields Q (k false)
        → Yields Q (less v w >>= k)
    less-branch Q v w k h g = Yields-bind (λ _. Unit) Q (less v w) k (fine v w) (λ b _. either b)
      where
        either : (b : Bool) → Yields Q (k b)
        either true = h
        either false = g

    pub Permutes-self : (a : List V) → Permutes a a
    Permutes-self a = (refl, λ f. refl)

    pub Permutes-trans : (a b c : List V) → Permutes a b → Permutes b c → Permutes a c
    Permutes-trans a b c (h, f) (k, g) = (k ∙ h, λ w. g w ∙ f w)

    pub order-Permutes :
        (a : List V) (i j : ℕ) → Within a i → Within a j → Yields (Permutes a) (order less a i j)
    unfolding order
    order-Permutes a i j h k =
        let (v, e) = raw_get-Within a i h in
        let (w, g) = raw_get-Within a j k in
        rw (e, g) (less-branch (Permutes a) w v _ (swap-Permutes a i j h k) (Permutes-self a))

    pub order_middle-Permutes :
        (a : List V) (l i u : ℕ)
        → Within a l
        → Within a i
        → Within a u
        → Yields (Permutes a) (order_middle less a l i u)
    unfolding order_middle
    order_middle-Permutes a l i u h k m =
        let (v, e) = raw_get-Within a i k in
        let (w, g) = raw_get-Within a l h in
        rw (e, g)
          (less-branch (Permutes a) v w _ (swap-Permutes a i l k h) (order-Permutes a i u k m))

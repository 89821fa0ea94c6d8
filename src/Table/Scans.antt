-- ===== src/Table/Scans.antt =====
-- Lua/src/ltablib.cpp: under a consistent order the scans of `auxsort` stop at the pivot at the latest.
use addons_terraria_tshock.Common.{
  ℕ, zero, suc, ◌+◌, ◌-◌, ◌≤◌, ◌<◌, ◌==◌, Bool, true, false, List, length, ◌≡◌, subst, sym, ap, ◌∙◌,
  arith, Bool-cases, inl, inr, gt→leb, eq_of_==, ne_of_==,
}
use addons_terraria_tshock.Common.Outcome.{Gives, Gives-mono}
use addons_terraria_tshock.Table.Sort.{scan_up, scan_down}
use addons_terraria_tshock.Table.Ranges.{answers, at, raw_get-at}

-- A strict weak order: of two values at most one comes before the other, and not to come after is
-- transitive.
pub record IsOrder {V : Type 0} (lt : V → V → Bool) : Type 0 where
  pub asym : (v w : V) → lt v w ≡ true → lt w v ≡ false
  pub le_trans : (v w x : V) → lt w v ≡ false → lt x w ≡ false → lt x v ≡ false

module _ {V : Type 0} (lt : V → V → Bool) (d : V) (laws : IsOrder lt) where
  abbrev pub Le : V → V → Type 0
  Le v w = lt w v ≡ false

  pub Le-self : (v : V) → Le v v
  Le-self v = elim (Bool-cases (lt v v)) [ inl e ↦ laws.asym v v e | inr e ↦ e ]

  irreflexive : (v p : V) → v ≡ p → lt v p ≡ true → ⊥
  irreflexive v p e h =
      let f : lt p p ≡ true = subst (λ (t : V). lt t p ≡ true) e h in
      let g : lt p p ≡ false = Le-self p in cc

  -- The elements from i to j are not above p, or not below it.
  abbrev pub Below : List V → ℕ → ℕ → V → Type 0
  Below a i j p = (k : ℕ) → i ≤ k → k ≤ j → Le (at d a k) p

  abbrev pub Above : List V → ℕ → ℕ → V → Type 0
  Above a i j p = (k : ℕ) → i ≤ k → k ≤ j → Le p (at d a k)

  pub scan_up_lem :
      (n : ℕ) (a : List V) (p : V) (u i : ℕ)
      → u ≤ length a
      → i + 1 < u
      → at d a (u - 1) ≡ p
      → u ≤ n + i
      → Gives
          (λ j.
            (i < j) × (j + 1 ≤ u) × Le p (at d a j) × ((k : ℕ) → i < k → k < j → Le (at d a k) p))
          (scan_up (answers lt) n a p u i)
  unfolding scan_up
  scan_up_lem zero a p u i h k e m = absurd (omega arith)
  scan_up_lem (suc n) a p u i h k e m =
      rw (raw_get-at d (answers lt) a (i + 1) (omega arith) (omega arith))
        (elim (Bool-cases (lt (at d a (i + 1)) p)) [
          | inr stop ↦ rw stop (omega arith, omega arith, stop, λ j x y. absurd (omega arith))
          | inl more ↦
              let inside : i + 1 + 1 < u = before_pivot more in
              rw (more, gt→leb u (i + 1) (omega arith))
                (Gives-mono _ _ (scan_up (answers lt) n a p u (i + 1))
                  (λ j (x, y, z, w).
                    (omega arith, y, z, between j w (laws.asym (at d a (i + 1)) p more)))
                  (scan_up_lem n a p u (i + 1) h inside e (omega arith)))
        ])
    where
      before_pivot : lt (at d a (i + 1)) p ≡ true → i + 1 + 1 < u
      before_pivot more = elim (Bool-cases (i + 1 == u - 1)) [
        | inl s ↦ absurd (
            irreflexive (at d a (i + 1)) p
              (ap (λ (t : ℕ). at d a t) (eq_of_== (i + 1) (u - 1) s) ∙ e) more)
        | inr s ↦ omega (arith, ne_of_== (i + 1) (u - 1) s)
      ]

      between :
          (j : ℕ)
          → ((k : ℕ) → i + 1 < k → k < j → Le (at d a k) p)
          → Le (at d a (i + 1)) p
          → (k : ℕ) → i < k
          → k < j
          → Le (at d a k) p
      between j w first k x y = elim (Bool-cases (k == i + 1)) [
        | inl s ↦ subst (λ (t : ℕ). Le (at d a t) p) (sym (eq_of_== k (i + 1) s)) first
        | inr s ↦ w k (omega (arith, ne_of_== k (i + 1) s)) y
      ]

  pub scan_down_lem :
      (n : ℕ) (a : List V) (p : V) (l j : ℕ)
      → 1 ≤ l
      → l < j
      → j ≤ length a + 1
      → Le (at d a l) p
      → j ≤ n + l
      → Gives
          (λ k. (l ≤ k) × (k < j) × Le (at d a k) p × ((m : ℕ) → k < m → m < j → Le p (at d a m)))
          (scan_down (answers lt) n a p l j)
  unfolding scan_down
  scan_down_lem zero a p l j h k m e f = absurd (omega arith)
  scan_down_lem (suc n) a p l j h k m e f =
      rw (raw_get-at d (answers lt) a (j - 1) (omega arith) (omega arith))
        (elim (Bool-cases (lt p (at d a (j - 1)))) [
          | inr stop ↦ rw stop (omega arith, omega arith, stop, λ i x y. absurd (omega arith))
          | inl more ↦
              let inside : l < j - 1 = behind_first more in
              rw (more, gt→leb (j - 1) l inside)
                (Gives-mono _ _ (scan_down (answers lt) n a p l (j - 1))
                  (λ i (x, y, z, w).
                    (x, omega arith, z, between i w (laws.asym p (at d a (j - 1)) more)))
                  (scan_down_lem n a p l (j - 1) h inside (omega arith) e (omega arith)))
        ])
    where
      behind_first : lt p (at d a (j - 1)) ≡ true → l < j - 1
      behind_first more = elim (Bool-cases (l == j - 1)) [
        | inl s ↦
            let g : lt p (at d a (j - 1)) ≡ false =
              subst (λ (t : ℕ). lt p (at d a t) ≡ false) (eq_of_== l (j - 1) s) e in
            absurd (differ more g)
        | inr s ↦ omega (arith, ne_of_== l (j - 1) s)
      ]
        where
          differ : {b : Bool} → b ≡ true → b ≡ false → ⊥
          differ x y = cc

      between :
          (i : ℕ)
          → ((m : ℕ) → i < m → m < j - 1 → Le p (at d a m))
          → Le p (at d a (j - 1))
          → (m : ℕ) → i < m
          → m < j
          → Le p (at d a m)
      between i w first m x y = elim (Bool-cases (m == j - 1)) [
        | inl s ↦ subst (λ (t : ℕ). Le p (at d a t)) (sym (eq_of_== m (j - 1) s)) first
        | inr s ↦ w m x (omega (arith, ne_of_== m (j - 1) s))
      ]

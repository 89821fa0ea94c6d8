-- ===== src/Table/Ordering.antt =====
-- Lua/src/ltablib.cpp: small ranges are put in order, and the parts around a pivot make a sorted range.
use addons_terraria_tshock.Common.{
  ℕ, ◌+◌, ◌-◌, ◌≤◌, ◌<◌, ◌==◌, ltb, Bool, List, length, ◌≡◌, subst, sym, ◌∙◌, arith, Bool-cases,
  inl, inr, ltb→lt, ltb→ge, eq_of_==, ne_of_==,
}
use addons_terraria_tshock.Common.Outcome.{Gives, Gives-mono}
use addons_terraria_tshock.Table.Sort.{swap, order, order_middle}
use addons_terraria_tshock.Table.Ranges.{
  answers, at, Swapped, Reorders, raw_get-at, swap-Swapped, Reorders-self, Reorders-trans,
  Reorders-within, Swapped-Reorders,
}
use addons_terraria_tshock.Table.Scans.{IsOrder, Le, Le-self, Below, Above}
use addons_terraria_tshock.Table.Pivot.{Around}

module _ {V : Type 0} (lt : V → V → Bool) (d : V) (laws : IsOrder lt) where
  abbrev pub SortedOn : List V → ℕ → ℕ → Type 0
  SortedOn a l u = (i j : ℕ) → l ≤ i → i ≤ j → j ≤ u → Le lt d laws (at d a i) (at d a j)

  pub order_lem :
      (a : List V) (l u : ℕ)
      → 1 ≤ l
      → l < u
      → u ≤ length a
      → Gives
          (λ b. Reorders d l u a b × Le lt d laws (at d b l) (at d b u))
          (order (answers lt) a l u)
  unfolding order
  order_lem a l u h k m =
      rw
        (
          raw_get-at d (answers lt) a l h (omega arith),
          raw_get-at d (answers lt) a u (omega arith) m,
        )
        (elim (Bool-cases (lt (at d a u) (at d a l))) [
          | inr e ↦ rw e (Reorders-self d l u a, e)
          | inl e ↦ rw e (
              Gives-mono (Swapped d l u a) _ (swap (answers lt) a l u)
                (λ b q. (
                  Swapped-Reorders d l u l u a b h (omega arith) (omega arith) (omega arith)
                      (omega arith) q,
                  exchanged b q (laws.asym (at d a u) (at d a l) e),
                ))
                (swap-Swapped d (answers lt) a l u h (omega arith) (omega arith) m))
        ])
    where
      exchanged :
          (b : List V)
          → Swapped d l u a b
          → Le lt d laws (at d a u) (at d a l)
          → Le lt d laws (at d b l) (at d b u)
      exchanged b q e = rw (q.1, q.2) e

  -- The middle element is put between the others.
  abbrev pub Middle : List V → ℕ → ℕ → ℕ → List V → Type 0
  Middle b l i u c =
      Reorders d l u b c × Le lt d laws (at d c l) (at d c i) × Le lt d laws (at d c i) (at d c u)

  pub order_middle_lem :
      (b : List V) (l i u : ℕ)
      → 1 ≤ l
      → l < i
      → i < u
      → u ≤ length b
      → Le lt d laws (at d b l) (at d b u)
      → Gives (Middle b l i u) (order_middle (answers lt) b l i u)
  unfolding order_middle order
  order_middle_lem b l i u h k m n low =
      rw
        (
          raw_get-at d (answers lt) b i (omega arith) (omega arith),
          raw_get-at d (answers lt) b l h (omega arith),
        )
        (elim (Bool-cases (lt (at d b i) (at d b l))) [
          | inl e ↦ rw e (
              Gives-mono (Swapped d i l b) (Middle b l i u) (swap (answers lt) b i l)
                (λ c q. (
                  Swapped-Reorders d l u i l b c h (omega arith) (omega arith) (omega arith)
                      (omega arith) q,
                  rw (q.1, q.2) (laws.asym (at d b i) (at d b l) e),
                  rw (q.2, q.3 u (omega arith) (omega arith) (omega arith)) low,
                ))
                (swap-Swapped d (answers lt) b i l (omega arith) (omega arith) h (omega arith)))
          | inr e ↦
              rw (e, raw_get-at d (answers lt) b u (omega arith) n)
                (elim (Bool-cases (lt (at d b u) (at d b i))) [
                  | inr g ↦ rw g (Reorders-self d l u b, e, g)
                  | inl g ↦ rw g (
                      Gives-mono (Swapped d i u b) (Middle b l i u) (swap (answers lt) b i u)
                        (λ c q. (
                          Swapped-Reorders d l u i u b c h (omega arith) (omega arith) (omega arith)
                              (omega arith) q,
                          rw (q.2, q.3 l h (omega arith) (omega arith)) low,
                          rw (q.1, q.2) (laws.asym (at d b u) (at d b i) g),
                        ))
                        (swap-Swapped d (answers lt) b i u (omega arith) (omega arith) (omega arith)
                          n))
                ])
        ])

  -- Elements that stay, from l to u.
  abbrev Same : List V → List V → ℕ → ℕ → Type 0
  Same a b l u = (k : ℕ) → l ≤ k → k ≤ u → at d b k ≡ at d a k

  SortedOn-Same : (a b : List V) (l u : ℕ) → Same a b l u → SortedOn a l u → SortedOn b l u
  SortedOn-Same a b l u f s i j x y z = rw (f i x (omega arith), f j (omega arith) z) (s i j x y z)

  Below-Reorders :
      (l u : ℕ) (a b : List V) (p : V)
      → Reorders d l u a b
      → Below lt d laws a l u p
      → Below lt d laws b l u p
  Below-Reorders l u a b p (h, f, g) q k x y = let (m, r, s, e) = g k x y in rw e (q m r s)

  Above-Reorders :
      (l u : ℕ) (a b : List V) (p : V)
      → Reorders d l u a b
      → Above lt d laws a l u p
      → Above lt d laws b l u p
  Above-Reorders l u a b p (h, f, g) q k x y = let (m, r, s, e) = g k x y in rw e (q m r s)

  -- Two sorted parts around a pivot.
  pub around-SortedOn :
      (a : List V) (l m u : ℕ)
      → Below lt d laws a l (m - 1) (at d a m)
      → Above lt d laws a (m + 1) u (at d a m)
      → SortedOn a l (m - 1)
      → SortedOn a (m + 1) u
      → SortedOn a l u
  around-SortedOn a l m u f g s t i j x y z = elim (Bool-cases (ltb i m)) [
    | inl low ↦ elim (Bool-cases (ltb j m)) [
      | inl e ↦ s i j x y (omega (arith, ltb→lt j m e))
      | inr e ↦
          laws.le_trans (at d a i) (at d a m) (at d a j) (f i x (omega (arith, ltb→lt i m low)))
            (from_pivot (ltb→ge j m e))
    ]
    | inr high ↦ elim (Bool-cases (i == m)) [
      | inl e ↦
          subst (λ (k : ℕ). Le lt d laws (at d a k) (at d a j)) (sym (eq_of_== i m e))
            (from_pivot (omega (arith, ltb→ge i m high)))
      | inr e ↦ t i j (omega (arith, ltb→ge i m high, ne_of_== i m e)) y z
    ]
  ]
    where
      from_pivot : m ≤ j → Le lt d laws (at d a m) (at d a j)
      from_pivot h = elim (Bool-cases (j == m)) [
        | inl e ↦
            subst (λ (k : ℕ). Le lt d laws (at d a m) (at d a k)) (sym (eq_of_== j m e))
              (Le-self lt d laws (at d a m))
        | inr e ↦ g j (omega (arith, ne_of_== j m e)) z
      ]

  -- A range is sorted, and no other element has changed.
  abbrev pub Sorts : ℕ → ℕ → List V → List V → Type 0
  Sorts l u a b = Reorders d l u a b × SortedOn b l u

  module _ (a e f g : List V) (l m u : ℕ) (one : 1 ≤ l)
      (around : Around lt d laws a l u (m, e)) where
    finish :
        Reorders d l u e g
        → at d g m ≡ at d e m
        → Below lt d laws g l (m - 1) (at d e m)
        → Above lt d laws g (m + 1) u (at d e m)
        → SortedOn g l (m - 1)
        → SortedOn g (m + 1) u
        → Sorts l u a g
    finish r q low high s t = (
      Reorders-trans d l u a e g around.2 r,
      around-SortedOn g l m u (subst (λ (p : V). Below lt d laws g l (m - 1) p) (sym q) low)
          (subst (λ (p : V). Above lt d laws g (m + 1) u p) (sym q) high) s t,
    )

    pub left_first : Sorts l (m - 1) e f → Sorts (m + 1) u f g → Sorts l u a g
    left_first (r, s) (q, t) =
        finish
          (Reorders-trans d l u e f g
            (Reorders-within d l u l (m - 1) e f one (omega arith) (omega (arith, around.1)) r)
            (Reorders-within d l u (m + 1) u f g one (omega (arith, around.0)) (omega arith) q))
          (q.1 m (omega (arith, around.0)) (inl (omega arith))
            ∙ r.1 m (omega (arith, around.0)) (inr (omega (arith, around.0))))
          (λ k x y.
            rw (q.1 k (omega arith) (inl (omega (arith, around.0))))
              (Below-Reorders l (m - 1) e f (at d e m) r around.3 k x y))
          (Above-Reorders (m + 1) u f g (at d e m) q
            (λ k x y. rw (r.1 k (omega arith) (inr (omega arith))) (around.4 k x y)))
          (SortedOn-Same f g l (m - 1)
            (λ k x y. q.1 k (omega arith) (inl (omega (arith, around.0)))) s)
          t

    pub right_first : Sorts (m + 1) u e f → Sorts l (m - 1) f g → Sorts l u a g
    right_first (r, s) (q, t) =
        finish
          (Reorders-trans d l u e f g
            (Reorders-within d l u (m + 1) u e f one (omega (arith, around.0)) (omega arith) r)
            (Reorders-within d l u l (m - 1) f g one (omega arith) (omega (arith, around.1)) q))
          (q.1 m (omega (arith, around.0)) (inr (omega (arith, around.0)))
            ∙ r.1 m (omega (arith, around.0)) (inl (omega arith)))
          (Below-Reorders l (m - 1) f g (at d e m) q
            (λ k x y. rw (r.1 k (omega arith) (inl (omega (arith, around.0)))) (around.3 k x y)))
          (λ k x y.
            rw (q.1 k (omega arith) (inr (omega arith)))
              (Above-Reorders (m + 1) u e f (at d e m) r around.4 k x y))
          t (SortedOn-Same f g (m + 1) u (λ k x y. q.1 k (omega arith) (inr (omega arith))) s)

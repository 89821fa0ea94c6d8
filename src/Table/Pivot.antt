-- ===== src/Table/Pivot.antt =====
-- Lua/src/ltablib.cpp: under a consistent order `auxsort` splits a range around its pivot.
use addons_terraria_tshock.Common.{
  ℕ, zero, suc, ◌+◌, ◌-◌, ◌≤◌, ◌<◌, ◌==◌, ltb, Bool, List, length, ◌≡◌, subst, sym, ap, ◌∙◌, arith,
  Bool-cases, inl, inr, ltb→lt, ltb→ge, eq_of_==, ne_of_==,
}
use addons_terraria_tshock.Common.Outcome.{Gives, Gives-bind, Gives-mono}
use addons_terraria_tshock.Table.Sort.{swap, scan_up, scan_down, partition, split}
use addons_terraria_tshock.Table.Ranges.{
  answers, at, Swapped, Reorders, raw_get-at, swap-Swapped, Reorders-self, Reorders-trans,
  Swapped-Reorders,
}
use addons_terraria_tshock.Table.Scans.{
  IsOrder, Le, Le-self, Below, Above, scan_up_lem, scan_down_lem,
}

module _ {V : Type 0} (lt : V → V → Bool) (d : V) (laws : IsOrder lt) where
  -- The elements before m are not above the pivot, and those from m on are not below it.
  abbrev Parted : List V → V → ℕ → ℕ → ℕ × List V → Type 0
  Parted a p l u (m, b) =
      (l < m)
      × (m + 1 ≤ u)
      × Reorders d l u a b
      × (at d b (u - 1) ≡ p)
      × Below lt d laws b l (m - 1) p
      × Above lt d laws b m u p

  Below-join :
      (a : List V) (l i j : ℕ) (p : V)
      → Below lt d laws a l i p
      → ((k : ℕ) → i < k → k < j → Le lt d laws (at d a k) p)
      → Below lt d laws a l (j - 1) p
  Below-join a l i j p f g k x y = elim (Bool-cases (ltb i k)) [
    | inl s ↦ elim (Bool-cases (ltb k j)) [
      | inl t ↦ g k (ltb→lt i k s) (ltb→lt k j t)
      | inr t ↦ absurd (omega (arith, ltb→lt i k s, ltb→ge k j t))
    ]
    | inr s ↦ f k x (ltb→ge i k s)
  ]

  Above-join :
      (a : List V) (i j u : ℕ) (p : V)
      → Above lt d laws a j u p
      → ((k : ℕ) → i < k → k < j → Le lt d laws p (at d a k))
      → (k : ℕ) → i < k
      → k ≤ u
      → Le lt d laws p (at d a k)
  Above-join a i j u p f g k x y = elim (Bool-cases (ltb k j)) [
    | inl s ↦ g k x (ltb→lt k j s)
    | inr s ↦ f k (ltb→ge k j s) y
  ]

  -- Two elements on the wrong sides change places.
  module _ (a b : List V) (l u i j : ℕ) (p : V) (swapped : Swapped d i j a b) (one : 1 ≤ l)
      (le : i ≤ j) where
    Below-swap :
        l ≤ i → Below lt d laws a l (i - 1) p → Le lt d laws (at d a j) p → Below lt d laws b l i p
    Below-swap h f g k x y = elim (Bool-cases (k == i)) [
      | inl s ↦
          subst (λ (t : V). Le lt d laws t p)
            (sym (ap (λ (t : ℕ). at d b t) (eq_of_== k i s) ∙ swapped.2)) g
      | inr s ↦
          let ne = ne_of_== k i s in
          subst (λ (t : V). Le lt d laws t p)
            (sym (swapped.3 k (omega arith) ne (omega (arith, ne)))) (f k x (omega (arith, ne)))
    ]

    Above-swap :
        ((k : ℕ) → j < k → k ≤ u → Le lt d laws p (at d a k))
        → Le lt d laws p (at d a i)
        → l ≤ i
        → Above lt d laws b j u p
    Above-swap f g h k x y = elim (Bool-cases (k == j)) [
      | inl s ↦
          subst (λ (t : V). Le lt d laws p t)
            (sym (ap (λ (t : ℕ). at d b t) (eq_of_== k j s) ∙ swapped.1)) g
      | inr s ↦
          let ne = ne_of_== k j s in
          subst (λ (t : V). Le lt d laws p t)
            (sym (swapped.3 k (omega arith) (omega (arith, ne)) ne)) (f k (omega (arith, ne)) y)
    ]

  partition_lem :
      (n : ℕ) (a : List V) (p : V) (l u i j : ℕ)
      → 1 ≤ l
      → l ≤ i
      → i + 1 < u
      → l < j
      → j + 1 ≤ u
      → u ≤ length a
      → u ≤ n + i
      → at d a (u - 1) ≡ p
      → Below lt d laws a l i p
      → Above lt d laws a j u p
      → Gives (Parted a p l u) (partition (answers lt) n a p l u i j)
  unfolding partition
  partition_lem zero a p l u i j h1 h2 h3 h4 h5 h6 h7 e below above = absurd (omega arith)
  partition_lem (suc n) a p l u i j h1 h2 h3 h4 h5 h6 h7 e below above =
      Gives-bind _ (Parted a p l u) (scan_up (answers lt) (u + 1) a p u i) _
        (scan_up_lem lt d laws (u + 1) a p u i h6 h3 e (omega arith))
        (λ i1 (g1, g2, g3, gb).
          Gives-bind _ (Parted a p l u) (scan_down (answers lt) (u + 1) a p l j) _
            (scan_down_lem lt d laws (u + 1) a p l j h1 h4 (omega arith) (below l (omega arith) h2)
              (omega arith))
            (λ j1 (f1, f2, f3, fb).
              let low = Below-join a l i i1 p below gb in
              let high = Above-join a j1 j u p above fb in
              elim (Bool-cases (ltb j1 i1)) [
                | inl s ↦ rw s (
                  omega arith,
                  g2,
                  Reorders-self d l u a,
                  e,
                  low,
                  λ k x y. high k (omega (arith, ltb→lt j1 i1 s)) y,
                )
                | inr s ↦ rw s (
                    let le = ltb→ge j1 i1 s in
                    Gives-bind (Swapped d i1 j1 a) (Parted a p l u) (swap (answers lt) a i1 j1) _
                      (swap-Swapped d (answers lt) a i1 j1 (omega arith) (omega arith) (omega arith)
                        (omega arith))
                      (λ b q.
                        Gives-mono (Parted b p l u) (Parted a p l u)
                          (partition (answers lt) n b p l u i1 j1)
                          (λ (m, c) (x, y, z, v, f, g). (
                            x,
                            y,
                            Reorders-trans d l u a b c
                                (Swapped-Reorders d l u i1 j1 a b h1 (omega arith) (omega arith)
                                  (omega arith) (omega arith) q)
                                z,
                            v,
                            f,
                            g,
                          ))
                          (partition_lem n b p l u i1 j1 h1 (omega arith) (omega arith)
                            (omega arith) (omega arith) (omega (arith, q.0)) (omega arith)
                            (q.3 (u - 1) (omega arith) (omega arith) (omega arith) ∙ e)
                            (Below-swap a b l u i1 j1 p q h1 le (omega arith) low f3)
                            (Above-swap a b l u i1 j1 p q h1 le high g3 (omega arith)))))
              ]))

  -- The pivot stands at m, between the elements that are not above it and those that are not below it.
  abbrev pub Around : List V → ℕ → ℕ → ℕ × List V → Type 0
  Around a l u (m, b) =
      (l < m)
      × (m + 1 ≤ u)
      × Reorders d l u a b
      × Below lt d laws b l (m - 1) (at d b m)
      × Above lt d laws b (m + 1) u (at d b m)

  around :
      (a b c : List V) (p : V) (l u m : ℕ)
      → 1 ≤ l
      → Reorders d l u a b
      → Parted b p l u (m, c)
      → (e : List V) → Swapped d (u - 1) m c e
      → Around a l u (m, e)
  around a b c p l u m one r (x, y, z, v, f, g) e q = (
    x,
    y,
    Reorders-trans d l u a b e r (
        Reorders-trans d l u b c e z (
          Swapped-Reorders d l u (u - 1) m c e one (omega arith) (omega arith) (omega arith)
            (omega arith) q)),
    λ k h j.
        subst (λ (t : V). Le lt d laws (at d e k) t) (sym pivot)
          (subst (λ (t : V). Le lt d laws t p)
            (sym (q.3 k (omega arith) (omega arith) (omega arith))) (f k h j)),
    λ k h j.
        subst (λ (t : V). Le lt d laws t (at d e k)) (sym pivot)
          (elim (Bool-cases (k == u - 1)) [
            | inl s ↦
                subst (λ (t : V). Le lt d laws p t)
                  (sym (ap (λ (t : ℕ). at d e t) (eq_of_== k (u - 1) s) ∙ q.2))
                  (g m (omega arith) (omega arith))
            | inr s ↦
                subst (λ (t : V). Le lt d laws p t)
                  (sym (q.3 k (omega arith) (ne_of_== k (u - 1) s) (omega arith)))
                  (g k (omega arith) j)
          ]),
  )
    where
      pivot : at d e m ≡ p
      pivot = q.1 ∙ v

  pub split_lem :
      (a : List V) (l i u : ℕ)
      → 1 ≤ l
      → l < i
      → i + 1 < u
      → u ≤ length a
      → Le lt d laws (at d a l) (at d a i)
      → Le lt d laws (at d a i) (at d a u)
      → Gives (Around a l u) (split (answers lt) a l i u)
  unfolding split
  split_lem a l i u h1 h2 h3 h4 low high =
      let p = at d a i in
      rw (raw_get-at d (answers lt) a i (omega arith) (omega arith)) (
        Gives-bind (Swapped d i (u - 1) a) (Around a l u) (swap (answers lt) a i (u - 1)) _
          (swap-Swapped d (answers lt) a i (u - 1) (omega arith) (omega arith) (omega arith)
            (omega arith))
          (λ b q.
            Gives-bind (Parted b p l u) (Around a l u)
              (partition (answers lt) (u + 1) b p l u l (u - 1)) _
              (partition_lem (u + 1) b p l u l (u - 1) h1 (omega arith) (omega arith) (omega arith)
                (omega arith) (omega (arith, q.0)) (omega arith) q.1 (first b q) (ends b q))
              (λ (m, c) (x, y, z, v, f, g).
                Gives-bind (Swapped d (u - 1) m c) (Around a l u) (swap (answers lt) c (u - 1) m) _
                  (swap-Swapped d (answers lt) c (u - 1) m (omega arith) (omega (arith, q.0, z.0))
                    (omega arith) (omega (arith, q.0, z.0)))
                  (λ e w.
                    around a b c p l u m h1
                      (Swapped-Reorders d l u i (u - 1) a b h1 (omega arith) (omega arith)
                        (omega arith) (omega arith) q)
                      (x, y, z, v, f, g) e w))))
    where
      first : (b : List V) → Swapped d i (u - 1) a b → Below lt d laws b l l (at d a i)
      first b q k x y =
          subst (λ (t : V). Le lt d laws t (at d a i))
            (sym (ap (λ (t : ℕ). at d b t) (omega arith) ∙ q.3 l h1 (omega arith) (omega arith)))
            low

      ends : (b : List V) → Swapped d i (u - 1) a b → Above lt d laws b (u - 1) u (at d a i)
      ends b q k x y = elim (Bool-cases (k == u)) [
        | inl s ↦
            subst (λ (t : V). Le lt d laws (at d a i) t)
              (sym (
                ap (λ (t : ℕ). at d b t) (eq_of_== k u s)
                ∙ q.3 u (omega arith) (omega arith) (omega arith)))
              high
        | inr s ↦
            let same : k ≡ u - 1 = omega (arith, ne_of_== k u s) in
            subst (λ (t : V). Le lt d laws (at d a i) t) (sym (ap (λ (t : ℕ). at d b t) same ∙ q.1))
              (Le-self lt d laws (at d a i))
      ]

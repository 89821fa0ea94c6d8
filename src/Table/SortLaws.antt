-- ===== src/Table/SortLaws.antt =====
-- Lua/src/ltablib.cpp: sorting ends, stays within the elements, and permutes them.
use addons_terraria_tshock.Common.{
  ℕ, zero, suc, ◌+◌, ◌-◌, ◌/◌, ◌≤◌, ◌<◌, ◌==◌, ltb, leb, Bool, List, length, ◌≡◌, ◌∙◌, arith,
  Bool-cases, inl, inr, leb→gt, ltb→lt, ltb→ge, ne_of_==,
}
use addons_terraria_tshock.Common.Outcome.{Outcome, ◌>>=◌, Yields, Yields-bind, Yields-mono}
use addons_terraria_tshock.Table.Sort.{
  swap, order, order_middle, scan_up, scan_down, partition, split, auxsort, sort,
}
use addons_terraria_tshock.Table.Swaps.{
  Permutes, raw_get-Within, swap-Permutes, less-branch, Permutes-self, Permutes-trans,
  order-Permutes, order_middle-Permutes,
}

module _ {V : Type 0} (less : V → V → Outcome Bool) where
  module _ (fine : (v w : V) → Yields (λ _. Unit) (less v w)) where
    -- Going up ends within the bounds, and no later than at u.
    scan_up-Within :
        (n : ℕ) (a : List V) (p : V) (u i : ℕ)
        → u ≤ length a
        → i < u
        → u < n + i + 1
        → Yields (λ j. (i < j) × (j ≤ u)) (scan_up less n a p u i)
    unfolding scan_up
    scan_up-Within zero a p u i h k m = absurd (omega arith)
    scan_up-Within (suc n) a p u i h k m =
        let (v, e) = raw_get-Within less a (i + 1) (omega arith, omega arith) in
        rw e (
          less-branch less fine (λ j. (i < j) × (j ≤ u)) v p _
            (elim (Bool-cases (leb u (i + 1))) [
              | inl b ↦ rw b tt
              | inr b ↦ rw b (
                  Yields-mono _ _ (scan_up less n a p u (i + 1)) (λ j (g, f). (omega arith, f))
                    (scan_up-Within n a p u (i + 1) h (omega (arith, leb→gt u (i + 1) b))
                      (omega arith)))
            ])
            (omega arith, omega arith))

    scan_down-Within :
        (n : ℕ) (a : List V) (p : V) (l j : ℕ)
        → 1 ≤ l
        → l < j
        → j ≤ length a + 1
        → j < n + l + 1
        → Yields (λ k. (l ≤ k) × (k < j)) (scan_down less n a p l j)
    unfolding scan_down
    scan_down-Within zero a p l j h k m f = absurd (omega arith)
    scan_down-Within (suc n) a p l j h k m f =
        let (v, e) = raw_get-Within less a (j - 1) (omega arith, omega arith) in
        rw e (
          less-branch less fine (λ k. (l ≤ k) × (k < j)) p v _
            (elim (Bool-cases (leb (j - 1) l)) [
              | inl b ↦ rw b tt
              | inr b ↦ rw b (
                  Yields-mono _ _ (scan_down less n a p l (j - 1)) (λ k (g, f). (g, omega arith))
                    (scan_down-Within n a p l (j - 1) h (omega (arith, leb→gt (j - 1) l b))
                      (omega arith) (omega arith)))
            ])
            (omega arith, omega arith))

    -- The pivot's place, above l and no later than u, and the same elements.
    abbrev Placed : List V → ℕ → ℕ → ℕ × List V → Type 0
    Placed a l u (i, b) = (l < i) × (i ≤ u) × Permutes a b

    partition-Placed :
        (n : ℕ) (a : List V) (p : V) (l u i j : ℕ)
        → 1 ≤ l
        → l ≤ i
        → i < u
        → l < j
        → j < u
        → u ≤ length a
        → u ≤ n + i
        → Yields (Placed a l u) (partition less n a p l u i j)
    unfolding partition
    partition-Placed zero a p l u i j h1 h2 h3 h4 h5 h6 h7 = absurd (omega arith)
    partition-Placed (suc n) a p l u i j h1 h2 h3 h4 h5 h6 h7 =
        Yields-bind _ (Placed a l u) (scan_up less (u + 1) a p u i) _
          (scan_up-Within (u + 1) a p u i h6 h3 (omega arith))
          (λ i1 (g1, g2).
            Yields-bind _ (Placed a l u) (scan_down less (u + 1) a p l j) _
              (scan_down-Within (u + 1) a p l j h1 h4 (omega arith) (omega arith))
              (λ j1 (f1, f2). elim (Bool-cases (ltb j1 i1)) [
                | inl b ↦ rw b (omega arith, g2, Permutes-self less fine a)
                | inr b ↦ rw b (
                    let le = ltb→ge j1 i1 b in
                    Yields-bind (Permutes a) (Placed a l u) (swap less a i1 j1) _
                      (swap-Permutes less a i1 j1 (omega arith, omega arith)
                        (omega arith, omega arith))
                      (λ b q.
                        Yields-mono (Placed b l u) (Placed a l u) (partition less n b p l u i1 j1)
                          (λ (k, c) (x, y, z). (x, y, Permutes-trans less fine a b c q z))
                          (partition-Placed n b p l u i1 j1 h1 (omega arith) (omega arith)
                            (omega arith) (omega arith) (omega (arith, q.0)) (omega arith))))
              ]))

    split-Placed :
        (a : List V) (l i u : ℕ)
        → 1 ≤ l
        → l < i
        → i < u
        → l + 2 < u
        → u ≤ length a
        → Yields (Placed a l u) (split less a l i u)
    unfolding split
    split-Placed a l i u h1 h2 h3 h4 h5 =
        let (p, e) = raw_get-Within less a i (omega arith, omega arith) in
        rw e (
          Yields-bind (Permutes a) (Placed a l u) (swap less a i (u - 1)) _
            (swap-Permutes less a i (u - 1) (omega arith, omega arith) (omega arith, omega arith))
            (λ b q.
              Yields-bind (Placed b l u) (Placed a l u) (partition less (u + 1) b p l u l (u - 1)) _
                (partition-Placed (u + 1) b p l u l (u - 1) h1 (omega arith) (omega arith)
                  (omega arith) (omega arith) (omega (arith, q.0)) (omega arith))
                (λ (j, c) (x, y, r).
                  Yields-bind (Permutes c) (Placed a l u) (swap less c (u - 1) j) _
                    (swap-Permutes less c (u - 1) j (omega arith, omega (arith, q.0, r.0))
                      (omega arith, omega (arith, q.0, r.0)))
                    (λ d s. (
                      x,
                      y,
                      Permutes-trans less fine a b d q (Permutes-trans less fine b c d r s),
                    )))))

    -- Two parts of a range are sorted one after the other.
    both_parts :
        (a b : List V) (f g : List V → Outcome (List V))
        → Permutes a b
        → ((c : List V) → length c ≡ length a → Yields (Permutes c) (f c))
        → ((c : List V) → length c ≡ length a → Yields (Permutes c) (g c))
        → Yields (Permutes a) (f b >>= g)
    both_parts a b f g q h k = Yields-bind (Permutes b) (Permutes a) (f b) g (h b q.0) (λ c r.
        Yields-mono (Permutes c) (Permutes a) (g c)
          (λ d s. Permutes-trans less fine a b d q (Permutes-trans less fine b c d r s))
          (k c (r.0 ∙ q.0)))

    auxsort-Permutes :
        (n l u : ℕ) (a : List V)
        → 1 ≤ l
        → l ≤ u + 1
        → u ≤ length a
        → u + 1 < n + l
        → Yields (Permutes a) (auxsort less n l u a)
    unfolding auxsort
    auxsort-Permutes zero l u a h g k m = absurd (omega arith)
    auxsort-Permutes (suc n) l u a h g k m = elim (Bool-cases (ltb l u)) [
      | inr b ↦ rw b (Permutes-self less fine a)
      | inl b ↦
          let lt = ltb→lt l u b in
          rw b (
            Yields-bind (Permutes a) (Permutes a) (order less a l u) _
              (order-Permutes less fine a l u (omega arith, omega arith) (omega arith, k))
              (λ b q. elim (Bool-cases (u - l == 1)) [
                | inl s ↦ rw s q
                | inr s ↦ rw s (
                    Yields-bind (Permutes b) (Permutes a) (order_middle less b l ((l + u) / 2) u) _
                      (order_middle-Permutes less fine b l ((l + u) / 2) u
                        (omega (arith, q.0), omega (arith, q.0))
                        (omega (arith, q.0), omega (arith, q.0))
                        (omega (arith, q.0), omega (arith, q.0)))
                      (λ c r. elim (Bool-cases (u - l == 2)) [
                        | inl t ↦ rw t (Permutes-trans less fine a b c q r)
                        | inr t ↦
                            let ne1 = ne_of_== (u - l) 1 s in
                            let ne2 = ne_of_== (u - l) 2 t in
                            rw t (
                              Yields-bind (Placed c l u) (Permutes a)
                                (split less c l ((l + u) / 2) u) _
                                (split-Placed c l ((l + u) / 2) u h (omega arith) (omega arith)
                                  (omega arith) (omega (arith, q.0, r.0)))
                                (λ (i, d) (x, y, v).
                                  let w =
                                    Permutes-trans less fine a c d
                                      (Permutes-trans less fine a b c q r) v in
                                  elim (Bool-cases (ltb (i - l) (u - i))) [
                                    | inl z ↦ rw z (
                                        both_parts a d (auxsort less n l (i - 1))
                                          (auxsort less n (i + 1) u) w
                                          (λ e f.
                                            auxsort-Permutes n l (i - 1) e h (omega arith)
                                              (omega (arith, f)) (omega arith))
                                          (λ e f.
                                            auxsort-Permutes n (i + 1) u e (omega arith)
                                              (omega arith) (omega (arith, f)) (omega arith)))
                                    | inr z ↦ rw z (
                                        both_parts a d (auxsort less n (i + 1) u)
                                          (auxsort less n l (i - 1)) w
                                          (λ e f.
                                            auxsort-Permutes n (i + 1) u e (omega arith)
                                              (omega arith) (omega (arith, f)) (omega arith))
                                          (λ e f.
                                            auxsort-Permutes n l (i - 1) e h (omega arith)
                                              (omega (arith, f)) (omega arith)))
                                  ]))
                      ]))
              ]))
    ]

  -- With an order that always ends in an answer or an error, however inconsistent, sort ends, reads no
  -- element beyond those of the table, and either raises an error or leaves the same elements, each as
  -- often as before.
  pub sort-Permutes :
      (a : List V) → ((v w : V) → Yields (λ _. Unit) (less v w)) → Yields (Permutes a) (sort less a)
  unfolding sort
  sort-Permutes a fine =
      auxsort-Permutes fine (length a + 1) 1 (length a) a (omega arith) (omega arith) (omega arith)
        (omega arith)

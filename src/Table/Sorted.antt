-- ===== src/Table/Sorted.antt =====
-- Lua/src/ltablib.cpp: under a consistent order `table.sort` sorts.
use addons_terraria_tshock.Common.{
  ℕ, zero, suc, ◌+◌, ◌-◌, ◌/◌, ◌≤◌, ◌<◌, ◌==◌, if◌then◌else◌, ltb, Bool, false, some, List, [], ◌∷◌,
  length, get_elem?, get_or, lt-length, ◌≡◌, subst, refl, arith, Bool-cases, inl, inr, ltb→lt,
  ltb→ge, eq_of_==, ne_of_==,
}
use addons_terraria_tshock.Common.Outcome.{
  ok, ◌>>=◌, Gives, Gives-bind, Gives-mono, Gives-parts, Yields,
}
use addons_terraria_tshock.Table.Sort.{order, order_middle, split, auxsort, sort}
use addons_terraria_tshock.Table.Ranges.{answers, at, Reorders, Reorders-self, Reorders-trans}
use addons_terraria_tshock.Table.Swaps.{Permutes}
use addons_terraria_tshock.Table.SortLaws.{sort-Permutes}
use addons_terraria_tshock.Table.Scans.{IsOrder, Le, Le-self}
use addons_terraria_tshock.Table.Pivot.{Around, split_lem}
use addons_terraria_tshock.Table.Ordering.{
  SortedOn, order_lem, Middle, order_middle_lem, Sorts, left_first, right_first, around-SortedOn,
}

module _ {V : Type 0} (lt : V → V → Bool) (d : V) (laws : IsOrder lt) where
  one-SortedOn : (a : List V) (l u : ℕ) → u ≤ l → SortedOn lt d laws a l u
  one-SortedOn a l u h i j x y z =
      subst (λ (k : ℕ). Le lt d laws (at d a i) (at d a k)) {x = i} {y = j} (omega arith)
        (Le-self lt d laws (at d a i))

  two-SortedOn :
      (a : List V) (l u : ℕ)
      → u ≡ l + 1
      → Le lt d laws (at d a l) (at d a u)
      → SortedOn lt d laws a l u
  two-SortedOn a l u h e =
      around-SortedOn lt d laws a l u u
        (λ k x y.
          subst (λ (t : ℕ). Le lt d laws (at d a t) (at d a u)) {x = l} {y = k} (omega arith) e)
        (λ k x y. absurd (omega arith)) (one-SortedOn a l (u - 1) (omega arith))
        (one-SortedOn a (u + 1) u (omega arith))

  three-SortedOn :
      (a : List V) (l m u : ℕ)
      → m ≡ l + 1
      → u ≡ m + 1
      → Le lt d laws (at d a l) (at d a m)
      → Le lt d laws (at d a m) (at d a u)
      → SortedOn lt d laws a l u
  three-SortedOn a l m u h k e f =
      around-SortedOn lt d laws a l m u
        (λ j x y.
          subst (λ (t : ℕ). Le lt d laws (at d a t) (at d a m)) {x = l} {y = j} (omega arith) e)
        (λ j x y.
          subst (λ (t : ℕ). Le lt d laws (at d a m) (at d a t)) {x = u} {y = j} (omega arith) f)
        (one-SortedOn a l (m - 1) (omega arith)) (one-SortedOn a (m + 1) u (omega arith))

  parts_lem :
      (n l m u : ℕ) (a e : List V)
      → 1 ≤ l
      → u ≤ length a
      → ((v w : ℕ) (c : List V)
          → l ≤ v
          → v ≤ w + 1
          → w ≤ u
          → w - v < u - l
          → w ≤ length c
          → Gives (Sorts lt d laws v w c) (auxsort (answers lt) n v w c))
      → Around lt d laws a l u (m, e)
      → Gives (Sorts lt d laws l u a) (
          if ltb (m - l) (u - m)
          then auxsort (answers lt) n l (m - 1) e >>= auxsort (answers lt) n (m + 1) u
          else auxsort (answers lt) n (m + 1) u e >>= auxsort (answers lt) n l (m - 1))
  parts_lem n l m u a e one long again around = elim (Bool-cases (ltb (m - l) (u - m))) [
    | inl z ↦ rw z (
        Gives-bind (Sorts lt d laws l (m - 1) e) (Sorts lt d laws l u a)
          (auxsort (answers lt) n l (m - 1) e) (auxsort (answers lt) n (m + 1) u)
          (again l (m - 1) e (omega arith) (omega (arith, around.0)) (omega (arith, around.1))
            (omega (arith, around.0, around.1)) (omega (arith, around.1, around.2.0)))
          (λ f q.
            Gives-mono (Sorts lt d laws (m + 1) u f) (Sorts lt d laws l u a)
              (auxsort (answers lt) n (m + 1) u f)
              (λ g r. left_first lt d laws a e f g l m u one around q r)
              (again (m + 1) u f (omega (arith, around.0)) (omega (arith, around.1)) (omega arith)
                (omega (arith, around.0, around.1)) (omega (arith, around.2.0, q.0.0)))))
    | inr z ↦ rw z (
        Gives-bind (Sorts lt d laws (m + 1) u e) (Sorts lt d laws l u a)
          (auxsort (answers lt) n (m + 1) u e) (auxsort (answers lt) n l (m - 1))
          (again (m + 1) u e (omega (arith, around.0)) (omega (arith, around.1)) (omega arith)
            (omega (arith, around.0, around.1)) (omega (arith, around.2.0)))
          (λ f q.
            Gives-mono (Sorts lt d laws l (m - 1) f) (Sorts lt d laws l u a)
              (auxsort (answers lt) n l (m - 1) f)
              (λ g r. right_first lt d laws a e f g l m u one around q r)
              (again l (m - 1) f (omega arith) (omega (arith, around.0)) (omega (arith, around.1))
                (omega (arith, around.0, around.1)) (omega (arith, around.1, around.2.0, q.0.0)))))
  ]

  auxsort_lem :
      (n l u : ℕ) (a : List V)
      → 1 ≤ l
      → l ≤ u + 1
      → u ≤ length a
      → u + 1 < n + l
      → Gives (Sorts lt d laws l u a) (auxsort (answers lt) n l u a)
  unfolding auxsort
  auxsort_lem zero l u a h g k m = absurd (omega arith)
  auxsort_lem (suc n) l u a h g k m = elim (Bool-cases (ltb l u)) [
    | inr b ↦ rw b (Reorders-self d l u a, one-SortedOn a l u (ltb→ge l u b))
    | inl b ↦
        let less = ltb→lt l u b in
        rw b (
          Gives-bind (λ b. Reorders d l u a b × Le lt d laws (at d b l) (at d b u))
            (Sorts lt d laws l u a) (order (answers lt) a l u) _
            (order_lem lt d laws a l u h less k)
            (λ b (q, ends). elim (Bool-cases (u - l == 1)) [
              | inl s ↦ rw s (q, two-SortedOn b l u (omega (arith, eq_of_== (u - l) 1 s)) ends)
              | inr s ↦
                  let ne1 = ne_of_== (u - l) 1 s in
                  rw s (
                    Gives-bind (Middle lt d laws b l ((l + u) / 2) u) (Sorts lt d laws l u a)
                      (order_middle (answers lt) b l ((l + u) / 2) u) _
                      (order_middle_lem lt d laws b l ((l + u) / 2) u h (omega arith) (omega arith)
                        (omega (arith, q.0)) ends)
                      (λ c (r, low, high). elim (Bool-cases (u - l == 2)) [
                        | inl t ↦ rw t (
                          Reorders-trans d l u a b c q r,
                          three-SortedOn c l ((l + u) / 2) u (omega (arith, eq_of_== (u - l) 2 t))
                              (omega (arith, eq_of_== (u - l) 2 t)) low high,
                        )
                        | inr t ↦
                            let ne2 = ne_of_== (u - l) 2 t in
                            rw t (
                              Gives-bind (Around lt d laws c l u) (Sorts lt d laws l u a)
                                (split (answers lt) c l ((l + u) / 2) u) _
                                (split_lem lt d laws c l ((l + u) / 2) u h (omega arith)
                                  (omega arith) (omega (arith, q.0, r.0)) low high)
                                (λ (i, e) around.
                                  Gives-mono (Sorts lt d laws l u c) (Sorts lt d laws l u a) _
                                    (λ f (x, y). (
                                      Reorders-trans d l u a c f (Reorders-trans d l u a b c q r) x,
                                      y,
                                    ))
                                    (parts_lem n l i u c e h (omega (arith, q.0, r.0))
                                      (λ v w f p1 p2 p3 p4 p5.
                                        auxsort_lem n v w f (omega arith) p2 p5 (omega arith))
                                      around)))
                      ]))
            ]))
  ]

get_or_of {ℓ} :
    {A : Type ℓ} (a : List A) (i : ℕ) (d v : A) → get_elem? a i ≡ some v → get_or a i d ≡ v
get_or_of [] i d v h = cc
get_or_of (x ∷ a) zero d v h = cc
get_or_of (x ∷ a) (suc i) d v h = get_or_of a i d v h

module _ {V : Type 0} (lt : V → V → Bool) where
  -- No element comes before one that stands before it.
  abbrev pub InOrder : List V → Type 0
  InOrder b =
      (i j : ℕ) (v w : V) → i ≤ j → get_elem? b i ≡ some v → get_elem? b j ≡ some w → lt w v ≡ false

  abbrev Result : List V → Type 0
  Result a = (b : List V) × (sort (answers lt) a ≡ ok b) × Permutes a b × InOrder b

  sort-nil : sort (answers lt) [] ≡ ok []
  unfolding sort auxsort
  sort-nil = refl

  sorted_from : (a : List V) → V → IsOrder lt → Result a
  unfolding sort
  sorted_from a d laws =
      let (b, e, (r, s)) = Gives-parts (Sorts lt d laws 1 (length a) a) (sort (answers lt) a) (
        auxsort_lem lt d laws (length a + 1) 1 (length a) a (omega arith) (omega arith)
          (omega arith) (omega arith)) in
      (
        b,
        e,
        subst (Yields (Permutes a)) e (sort-Permutes (answers lt) a (λ v w. tt)),
        λ i j v w h f g.
            let x : get_or b i d ≡ v = get_or_of b i d v f in
            let y : get_or b j d ≡ w = get_or_of b j d w g in
            subst (λ (t : V). lt t v ≡ false) y
              (subst (λ (t : V). lt (get_or b j d) t ≡ false) x
                (s (suc i) (suc j) (omega arith) (omega arith)
                  (omega (arith, r.0, lt-length b j g)))),
      )

  -- Under a strict weak order sort raises no error, and leaves the same elements, each as often as before,
  -- with none before one that it comes after.
  pub sort-InOrder :
      (a : List V)
      → IsOrder lt
      → (b : List V) × (sort (answers lt) a ≡ ok b) × Permutes a b × InOrder b
  sort-InOrder [] laws = ([], sort-nil, (refl, λ f. refl), λ i j v w h f g. cc)
  sort-InOrder (x ∷ xs) laws = sorted_from (x ∷ xs) x laws

-- ===== src/Table/Ranges.antt =====
-- Lua/src/ltablib.cpp: what the swaps of `table.sort` change of a range of elements.
use addons_terraria_tshock.Common.{
  ℕ, zero, suc, ◌≤◌, ◌<◌, ◌==◌, if◌then◌else◌, Bool, false, some, List, [], ◌∷◌, get_elem?, get_or,
  set, length, ◌≡◌, ◌≢◌, ◌⊎◌, ap, refl, ◌∙◌, arith, length-set, Bool-cases, inl, inr, eq_of_==,
  ne_of_==, ==_self, ltb, ltb→lt, ltb→ge,
}
use addons_terraria_tshock.Common.Outcome.{Outcome, ok, Gives}
use addons_terraria_tshock.Table.Sort.{raw_get, swap}

-- An order that is a function, and changes nothing.
abbrev pub answers : {V : Type 0} → (V → V → Bool) → V → V → Outcome Bool
answers lt v w = ok (lt v w)

ne_==_false : (m n : ℕ) → m ≢ n → (m == n) ≡ false
ne_==_false m n h = ground (arith, h)

module _ {V : Type 0} (d : V) where
  -- The element at a position from 1 on.
  abbrev pub at : List V → ℕ → V
  at a zero = d
  at a (suc i) = get_or a i d

  get_elem?-get_or : (a : List V) (i : ℕ) → i < length a → get_elem? a i ≡ some (get_or a i d)
  get_elem?-get_or [] i h = absurd (omega arith)
  get_elem?-get_or (x ∷ a) zero h = refl
  get_elem?-get_or (x ∷ a) (suc i) h = get_elem?-get_or a i (omega arith)

  get_or-set :
      (a : List V) (i k : ℕ) (v : V)
      → i < length a
      → get_or (set a i v) k d ≡ (if k == i then v else get_or a k d)
  get_or-set [] i k v h = absurd (omega arith)
  get_or-set (x ∷ a) zero zero v h = refl
  get_or-set (x ∷ a) zero (suc k) v h = ground arith
  get_or-set (x ∷ a) (suc i) zero v h = ground arith
  get_or-set (x ∷ a) (suc i) (suc k) v h = ground (arith, get_or-set a i k v (omega arith))

  -- The elements at i and j have changed places.
  abbrev pub Swapped : ℕ → ℕ → List V → List V → Type 0
  Swapped i j a b =
      (length b ≡ length a)
      × (at b j ≡ at a i)
      × (at b i ≡ at a j)
      × ((k : ℕ) → 1 ≤ k → k ≢ i → k ≢ j → at b k ≡ at a k)

  -- Only the elements from l to u are in other places, and those are the same.
  abbrev pub Reorders : ℕ → ℕ → List V → List V → Type 0
  Reorders l u a b =
      (length b ≡ length a)
      × ((k : ℕ) → 1 ≤ k → (k < l ⊎ u < k) → at b k ≡ at a k)
      × ((k : ℕ) → l ≤ k → k ≤ u → (m : ℕ) × (l ≤ m) × (m ≤ u) × (at b k ≡ at a m))

  module _ (less : V → V → Outcome Bool) where
    pub raw_get-at : (a : List V) (i : ℕ) → 1 ≤ i → i ≤ length a → raw_get less a i ≡ ok (at a i)
    unfolding raw_get
    raw_get-at a zero h k = absurd (omega arith)
    raw_get-at a (suc i) h k = rw (get_elem?-get_or a i (omega arith)) refl

    pub swap-Swapped :
        (a : List V) (i j : ℕ)
        → 1 ≤ i
        → i ≤ length a
        → 1 ≤ j
        → j ≤ length a
        → Gives (Swapped i j a) (swap less a i j)
    unfolding swap
    swap-Swapped a zero j h k l m = absurd (omega arith)
    swap-Swapped a (suc i) zero h k l m = absurd (omega arith)
    swap-Swapped a (suc i) (suc j) h k l m =
        rw (raw_get-at a (suc i) h k, raw_get-at a (suc j) l m)
          (
            omega (
              arith,
              length-set a i (get_or a j d),
              length-set (set a i (get_or a j d)) j (get_or a i d),
            ),
            get_or-set (set a i (get_or a j d)) j j (get_or a i d) room ∙ rw (==_self j) refl,
            get_or-set (set a i (get_or a j d)) j i (get_or a i d) room ∙ back,
            others,
          )
      where
        room : j < length (set a i (get_or a j d))
        room = omega (arith, length-set a i (get_or a j d))

        back : (if i == j then get_or a i d else get_or (set a i (get_or a j d)) i d) ≡ get_or a j d
        back = elim (Bool-cases (i == j)) [
          | inl e ↦ rw e (ap (λ (t : ℕ). get_or a t d) (eq_of_== i j e))
          | inr e ↦ rw e (get_or-set a i i (get_or a j d) (omega arith) ∙ rw (==_self i) refl)
        ]

        others :
            (n : ℕ)
            → 1 ≤ n
            → n ≢ suc i
            → n ≢ suc j
            → at (set (set a i (get_or a j d)) j (get_or a i d)) n ≡ at a n
        others zero p q r = absurd (omega arith)
        others (suc n) p q r =
            get_or-set (set a i (get_or a j d)) j n (get_or a i d) room
            ∙ rw (ne_==_false n j (omega (arith, r))) (
                get_or-set a i n (get_or a j d) (omega arith)
                ∙ rw (ne_==_false n i (omega (arith, q))) refl)

module _ {V : Type 0} (d : V) where
  pub Reorders-self : (l u : ℕ) (a : List V) → Reorders d l u a a
  Reorders-self l u a = (refl, λ k h g. refl, λ k h g. (k, h, g, refl))

  pub Reorders-trans :
      (l u : ℕ) (a b c : List V) → Reorders d l u a b → Reorders d l u b c → Reorders d l u a c
  Reorders-trans l u a b c (h, f, g) (h2, f2, g2) = (
    h2 ∙ h,
    λ k p q. f2 k p q ∙ f k p q,
    λ k p q.
        let (m, p2, q2, e) = g2 k p q in let (n, p3, q3, e3) = g m p2 q2 in (n, p3, q3, e ∙ e3),
  )

  -- A part of the range.
  pub Reorders-within :
      (l u m v : ℕ) (a b : List V) → 1 ≤ l → l ≤ m → v ≤ u → Reorders d m v a b → Reorders d l u a b
  Reorders-within l u m v a b one h k (e, f, g) = (
    e,
    λ n p q. f n p (further n q),
    λ n p q. elim (Bool-cases (ltb n m)) [
      | inl s ↦ (n, p, q, f n (omega arith) (inl (ltb→lt n m s)))
      | inr s ↦ elim (Bool-cases (ltb v n)) [
        | inl t ↦ (n, p, q, f n (omega arith) (inr (ltb→lt v n t)))
        | inr t ↦
            let (w, x, y, z) = g n (ltb→ge n m s) (ltb→ge v n t) in (w, omega arith, omega arith, z)
      ]
    ],
  )
    where
      further : (n : ℕ) → (n < l ⊎ u < n) → (n < m ⊎ v < n)
      further n (inl x) = inl (omega arith)
      further n (inr x) = inr (omega arith)

  pub Swapped-Reorders :
      (l u i j : ℕ) (a b : List V)
      → 1 ≤ l
      → l ≤ i
      → i ≤ u
      → l ≤ j
      → j ≤ u
      → Swapped d i j a b
      → Reorders d l u a b
  Swapped-Reorders l u i j a b one h k p q (e, at_j, at_i, same) = (
    e,
    λ n x y. same n x (out n i h k y) (out n j p q y),
    λ n x y. elim (Bool-cases (n == i)) [
      | inl s ↦ (j, p, q, ap (λ (t : ℕ). at d b t) (eq_of_== n i s) ∙ at_i)
      | inr s ↦ elim (Bool-cases (n == j)) [
        | inl t ↦ (i, h, k, ap (λ (t : ℕ). at d b t) (eq_of_== n j t) ∙ at_j)
        | inr t ↦ (n, x, y, same n (omega arith) (ne_of_== n i s) (ne_of_== n j t))
      ]
    ],
  )
    where
      out : (n m : ℕ) → l ≤ m → m ≤ u → (n < l ⊎ u < n) → n ≢ m
      out n m g f (inl x) e = omega (arith, e)
      out n m g f (inr x) e = omega (arith, e)

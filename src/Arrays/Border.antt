-- ===== src/Arrays/Border.antt =====
-- Lua/src/ltable.cpp: what `luaH_getn` returns is a boundary.
use addons_terraria_tshock.Common.{
  ℕ, zero, suc, ◌+◌, ◌-◌, ◌*◌, ◌/◌, ◌^◌, ◌≤◌, ◌<◌, ◌==◌, ltb, if◌then◌else◌, Bool, true, false,
  Option, none, some, List, [], ◌∷◌, get_elem?, get_or, length, ◌≡◌, ◌⊎◌, inl, inr, refl, sym, ap,
  subst, ◌∙◌, arith, Bool-cases, ltb→lt, ltb→ge, lt→ltb, ge→ltb, eq_of_==, ne_of_==,
}
use addons_terraria_tshock.Common.Outcome.{Outcome, ok, Gives, Gives-parts}
use addons_terraria_tshock.Arrays.{
  Table, sizearray, is_nil, array_is_nil, lua_h_getint, getint_is_nil, binary_search, linear_search,
  max_int, double_search, unbound_search, in_hash, lua_h_getn,
}

-- n is zero or present, and the next index is not.
abbrev pub IsBorder : (ℕ → Bool) → ℕ → Type 0
IsBorder absent n = (n ≡ 0 ⊎ absent n ≡ false) × (absent (n + 1) ≡ true)

-- The table answers as the function says, from 1 to `limit`.
abbrev Answers : (ℕ → Outcome Bool) → (ℕ → Bool) → ℕ → Type 0
Answers nil_at absent limit = (k : ℕ) → 1 ≤ k → k ≤ limit → nil_at k ≡ ok (absent k)

module _ (nil_at : ℕ → Outcome Bool) (absent : ℕ → Bool) (limit : ℕ)
    (answers : Answers nil_at absent limit) where
  binary_search_lem :
      (n i j : ℕ)
      → i < j
      → j ≤ limit
      → j - i ≤ n
      → (i ≡ 0 ⊎ absent i ≡ false)
      → absent j ≡ true
      → Gives (IsBorder absent) (binary_search nil_at n i j)
  unfolding binary_search
  binary_search_lem zero i j h k l p q = absurd (omega arith)
  binary_search_lem (suc n) i j h k l p q = elim (Bool-cases (ltb 1 (j - i))) [
    | inr e ↦ rw e (
      p,
      subst (λ (t : ℕ). absent t ≡ true) {x = j} {y = i + 1} (omega (arith, ltb→ge 1 (j - i) e)) q,
    )
    | inl e ↦
        let wide = ltb→lt 1 (j - i) e in
        rw (e, answers ((i + j) / 2) (omega arith) (omega arith))
          (elim (Bool-cases (absent ((i + j) / 2))) [
            | inl b ↦
                rw b (
                  binary_search_lem n i ((i + j) / 2) (omega arith) (omega arith) (omega arith) p b)
            | inr b ↦
                rw b (binary_search_lem n ((i + j) / 2) j (omega arith) k (omega arith) (inr b) q)
          ])
  ]

  linear_search_lem :
      (n i m : ℕ)
      → 1 ≤ i
      → i ≤ m
      → m ≤ limit
      → m < n + i
      → (i ≡ 1 ⊎ absent (i - 1) ≡ false)
      → absent m ≡ true
      → Gives (IsBorder absent) (linear_search nil_at n i)
  unfolding linear_search
  linear_search_lem zero i m h k l f p q = absurd (omega arith)
  linear_search_lem (suc n) i m h k l f p q =
      rw (answers i h (omega arith)) (elim (Bool-cases (absent i)) [
        | inl b ↦
            rw b
              (before p, subst (λ (t : ℕ). absent t ≡ true) {x = i} {y = i - 1 + 1} (omega arith) b)
        | inr b ↦ rw b (
            linear_search_lem n (i + 1) m (omega arith) (further b) l (omega arith)
              (inr (subst (λ (t : ℕ). absent t ≡ false) {x = i} {y = i + 1 - 1} (omega arith) b)) q)
      ])
    where
      before : (i ≡ 1 ⊎ absent (i - 1) ≡ false) → (i - 1 ≡ 0 ⊎ absent (i - 1) ≡ false)
      before (inl e) = inl (omega (arith, e))
      before (inr e) = inr e

      further : absent i ≡ false → i + 1 ≤ m
      further b = elim (Bool-cases (i == m)) [
        | inl e ↦
            let c : absent i ≡ true = subst (λ (t : ℕ). absent t ≡ true) (sym (eq_of_== i m e)) q in
            absurd (differ b c)
        | inr e ↦ omega (arith, ne_of_== i m e)
      ]
        where
          differ : {b : Bool} → b ≡ false → b ≡ true → ⊥
          differ x y = cc

  -- The index after n doublings.
  abbrev doubled : ℕ → ℕ → ℕ
  doubled zero j = j
  doubled (suc n) j = doubled n (j * 2)

  double_search_lem :
      (n i j m : ℕ)
      → i < j
      → j ≤ max_int
      → max_int < doubled n j
      → limit ≡ 2 ^ 31 - 1
      → (i ≡ 0 ⊎ absent i ≡ false)
      → 1 ≤ m
      → m ≤ limit
      → absent m ≡ true
      → Gives (IsBorder absent) (double_search nil_at n i j)
  unfolding double_search
  double_search_lem zero i j m h k l e p f g q = absurd (omega (arith, k, l))
  double_search_lem (suc n) i j m h k l e p f g q =
      rw (answers j (omega arith) (omega arith)) (elim (Bool-cases (absent j)) [
        | inl b ↦ rw b (binary_search_lem j i j h (omega arith) (omega arith) p b)
        | inr b ↦ rw b (elim (Bool-cases (ltb max_int (j * 2))) [
          | inl c ↦
              rw c (linear_search_lem (2 ^ 31) 1 m (omega arith) f g (omega arith) (inl refl) q)
          | inr c ↦ rw c (
              double_search_lem n j (j * 2) m (omega arith) (ltb→ge max_int (j * 2) c) l e (inr b) f
                g q)
        ])
      ])

module _ {V : Type 0} (t : Table V) where
  -- The value at a key from 1 on.
  abbrev entry : ℕ → Option V
  entry k = if ltb (k - 1) (sizearray t) then get_or t.array (k - 1) none else t.node k

  abbrev pub is_absent : ℕ → Bool
  is_absent k = is_nil (entry k)

  element : (a : List (Option V)) (i : ℕ) → i < length a → get_elem? a i ≡ some (get_or a i none)
  element [] i h = absurd (omega arith)
  element (x ∷ a) zero h = refl
  element (x ∷ a) (suc i) h = element a i (omega arith)

  getint-Answers : Answers (getint_is_nil t) is_absent (2 ^ 31 - 1)
  unfolding lua_h_getint
  getint-Answers k h l = elim (Bool-cases (ltb (k - 1) (sizearray t))) [
    | inl e ↦ rw (e, element t.array (k - 1) (ltb→lt (k - 1) (sizearray t) e)) refl
    | inr e ↦ rw e refl
  ]

  array-Answers : Answers (array_is_nil t) is_absent (sizearray t)
  unfolding array_is_nil
  array-Answers zero h l = absurd (omega arith)
  array-Answers (suc k) h l =
      rw
        (
          element t.array k (omega arith),
          ap (λ (j : ℕ). ltb j (sizearray t)) {x = suc k - 1} {y = k} (omega arith)
              ∙ lt→ltb k (sizearray t) (omega arith),
          subst (λ (j : ℕ). get_or t.array j none ≡ get_or t.array k none) {x = k} {y = suc k - 1}
              (omega arith) refl,
        )
        refl

  -- A table whose array part has at most 2^30 elements, without keys in the hash part if that is the
  -- dummy, and in which some int from 1 on is no key, has the boundary that `luaH_getn` returns: the
  -- index is 0 or present, and the next is not.
  pub lua_h_getn_lem :
      (m : ℕ)
      → sizearray t ≤ 2 ^ 30
      → (t.node_is_dummy ≡ true → (k : ℕ) → t.node k ≡ none)
      → 1 ≤ m
      → m < 2 ^ 31
      → is_absent m ≡ true
      → (n : ℕ) × (lua_h_getn t ≡ ok n) × IsBorder is_absent n
  unfolding lua_h_getn unbound_search lua_h_getint
  lua_h_getn_lem m h dummy f g q =
      Gives-parts (IsBorder is_absent) (lua_h_getn t) (elim (Bool-cases (ltb 0 (sizearray t))) [
        | inr e ↦ rw e (in_hash_lem (inl (omega (arith, ltb→ge 0 (sizearray t) e))))
        | inl e ↦
            let some_room = ltb→lt 0 (sizearray t) e in
            rw (e, array-Answers (sizearray t) some_room (omega arith))
              (elim (Bool-cases (is_absent (sizearray t))) [
                | inl b ↦ rw b (
                    binary_search_lem (array_is_nil t) is_absent (sizearray t) array-Answers
                      (sizearray t) 0 (sizearray t) some_room (omega arith) (omega arith) (inl refl)
                      b)
                | inr b ↦ rw b (in_hash_lem (inr b))
              ])
      ])
    where
      in_hash_lem :
          (sizearray t ≡ 0 ⊎ is_absent (sizearray t) ≡ false)
          → Gives (IsBorder is_absent) (in_hash t (sizearray t))
      in_hash_lem p = elim (Bool-cases t.node_is_dummy) [
        | inl e ↦ rw e (
          p,
          rw (ge→ltb (sizearray t + 1 - 1) (sizearray t) (omega arith), dummy e (sizearray t + 1))
              refl,
        )
        | inr e ↦ rw e (
            double_search_lem (getint_is_nil t) is_absent (2 ^ 31 - 1) getint-Answers 32
              (sizearray t) (sizearray t + 1) m (omega arith) (omega arith) (omega arith) refl p f
              (omega arith) q)
      ]

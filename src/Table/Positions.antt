-- ===== src/Table/Positions.antt =====
-- Lua/src/ltablib.cpp: `table.insert` and `table.remove`. A table is a function on the integer keys that
-- are not negative, where `nil` is a value. Its length, `luaL_len`, is a parameter: a function `getn` of
-- the table, which has no metamethod.
use addons_terraria_tshock.Common.{
  ℕ, zero, suc, ◌+◌, ◌-◌, ◌≤◌, ◌^◌, ◌==◌, if◌then◌else◌, leb, ltb, Bool, true, false, ◌&&◌, Option,
  none, some, ◌≢◌, ◌<◌, ◌≡◌, sym, lt→ltb, refl, ◌∙◌, ap, arith, Bool-cases, inl, inr, eq_of_==,
  le→leb, ==_self,
}
use addons_terraria_tshock.Common.Int.{ℤ, pos, negsuc}
use addons_terraria_tshock.Common.Outcome.{
  Outcome, ok, err, error, argerror, argcheck, defined, ◌>>=◌, ◌>>◌,
}

abbrev pub Table : Type 0 → Type 0
Table V = ℕ → V

-- The arguments behind the table: a value, a position and a value, or another number of arguments.
pub data InsertArgs (V : Type 0) : Type 0 where
  value : V → InsertArgs V
  position_value : ℤ → V → InsertArgs V
  other : InsertArgs V

module _ {V : Type 0} where
  -- `lua_rawseti(L, 1, i)`.
  abbrev pub put : Table V → ℕ → V → Table V
  put t i v = λ k. if k == i then v else t k

  -- `for (i = e; i > pos; i--)`, with d rounds left.
  abbrev pub move_up : ℕ → Table V → ℕ → Table V
  move_up zero t i = t
  move_up (suc d) t i = move_up d (put t i (t (i - 1))) (i - 1)

  abbrev insert_at : ℕ → Table V → ℕ → V → Table V
  insert_at e t p v = put (move_up (e - p) t e) p v

  -- `tinsert` behind its first line, with the first empty element e.
  abbrev pub insert_case : ℕ → Table V → InsertArgs V → Outcome (Table V)
  insert_case e t (value v) = ok (put t e v)
  insert_case e t (position_value (pos p) v) = do
    argcheck (leb 1 p && leb p e) 2 "position out of bounds"
    ok (insert_at e t p v)
  insert_case e t (position_value (negsuc p) v) = err (argerror 2 "position out of bounds")
  insert_case e t other = err (error "wrong number of arguments to 'insert'")

  -- `aux_getn(L, 1) + 1` is an `int`.
  unfoldable pub tinsert : (Table V → ℕ) → Table V → InsertArgs V → Outcome (Table V)
  tinsert getn t args = do defined (ltb (getn t + 1) (2 ^ 31)); insert_case (getn t + 1) t args

  -- `for ( ; pos < size; pos++)`, with d rounds left.
  abbrev pub move_down : ℕ → Table V → ℕ → Table V
  move_down zero t p = t
  move_down (suc d) t p = move_down d (put t p (t (p + 1))) (p + 1)

  -- The result and the new table; the last element that is moved or removed becomes nil.
  abbrev remove_at : V → ℕ → Table V → ℕ → V × Table V
  remove_at nil size t p =
      (t p, put (move_down (size - p) t p) (if ltb p size then size else p) nil)

  -- `tremove` behind its first line, where the position may be left out; `size + 1` is an `int`.
  abbrev pub remove_case : V → ℕ → Table V → Option ℤ → Outcome (V × Table V)
  remove_case nil size t none = ok (remove_at nil size t size)
  remove_case nil size t (some (negsuc p)) = err (argerror 1 "position out of bounds")
  remove_case nil size t (some (pos p)) = if p == size then ok (remove_at nil size t p) else (do
    argcheck (leb 1 p) 1 "position out of bounds"
    defined (ltb (size + 1) (2 ^ 31))
    argcheck (leb p (size + 1)) 1 "position out of bounds"
    ok (remove_at nil size t p))

  unfoldable pub tremove : V → (Table V → ℕ) → Table V → Option ℤ → Outcome (V × Table V)
  tremove nil getn t p = remove_case nil (getn t) t p

  move_up_lem :
      (d : ℕ) (t : Table V) (i k : ℕ)
      → d ≤ i
      → move_up d t i k ≡ (if leb k (i - d) then t k else if leb k i then t (k - 1) else t k)
  move_up_lem zero t i k h = ground arith
  move_up_lem (suc d) t i k h =
      move_up_lem d (put t i (t (i - 1))) (i - 1) k (omega arith) ∙ (elim (Bool-cases (k == i)) [
        | inl e ↦ ground (arith, ap (λ (m : ℕ). t (m - 1)) (eq_of_== k i e), eq_of_== k i e)
        | inr e ↦ ground arith
      ])

  move_down_lem :
      (d : ℕ) (t : Table V) (p k : ℕ)
      → move_down d t p k ≡ (if ltb k p then t k else if ltb k (p + d) then t (k + 1) else t k)
  move_down_lem zero t p k = ground arith
  move_down_lem (suc d) t p k = ground (arith, move_down_lem d (put t p (t (p + 1))) (p + 1) k)

  -- The value at a key after an insert at p, where n elements were.
  abbrev inserted : ℕ → Table V → ℕ → V → ℕ → V
  inserted n t p v k = if k == p then v else if leb p k && leb k (n + 1) then t (k - 1) else t k

  insert_at_lem :
      (n : ℕ) (t : Table V) (p : ℕ) (v : V) (k : ℕ)
      → 1 ≤ p
      → p ≤ n + 1
      → insert_at (n + 1) t p v k ≡ inserted n t p v k
  insert_at_lem n t p v k h g = ground (arith, move_up_lem (n + 1 - p) t (n + 1) k (omega arith))

  remove-insert :
      (nil : V) (n : ℕ) (t : Table V) (p : ℕ) (v : V) (k : ℕ)
      → 1 ≤ p
      → p ≤ n + 1
      → (remove_at nil (n + 1) (insert_at (n + 1) t p v) p).1 k ≡ (if k == n + 1 then nil else t k)
  remove-insert nil n t p v k h g = ground (
    arith,
    move_down_lem (n + 1 - p) (insert_at (n + 1) t p v) p k,
    insert_at_lem n t p v k h g,
    insert_at_lem n t p v (k + 1) h g,
  )

  -- The elements of a table stand at the keys from 1 to n.
  pub record IsSequence (nil : V) (n : ℕ) (t : Table V) : Type 0 where
    pub there : (k : ℕ) → 1 ≤ k → k ≤ n → t k ≢ nil
    pub behind : (k : ℕ) → n < k → t k ≡ nil

  -- What the manual promises of `#`: the length of a table whose elements stand at the keys from 1 to n.
  abbrev pub IsLength : V → (Table V → ℕ) → Type 0
  IsLength nil getn = (n : ℕ) (t : Table V) → n < 2 ^ 31 → IsSequence nil n t → getn t ≡ n

  insert_at-IsSequence :
      (nil : V) (n : ℕ) (t : Table V) (p : ℕ) (v : V)
      → IsSequence nil n t
      → v ≢ nil
      → 1 ≤ p
      → p ≤ n + 1
      → IsSequence nil (n + 1) (insert_at (n + 1) t p v)
  insert_at-IsSequence nil n t p v s some_value h g = record {
    there = λ k l r q. there k l r (sym (insert_at_lem n t p v k h g) ∙ q);
    behind = λ k l. insert_at_lem n t p v k h g ∙ ground (arith, s.behind k (omega arith));
  }
    where
      there : (k : ℕ) → 1 ≤ k → k ≤ n + 1 → inserted n t p v k ≢ nil
      there k l r q = ground (arith, q, some_value, s.there k, s.there (k - 1))

  -- Remove at the position of an insert returns the value that was inserted and restores the table, if this
  -- is a sequence of n elements, fewer than 2 ^ 31 - 2, the value is not nil, the position is from 1 to
  -- n + 1, and `#` gives the length of sequences.
  pub tremove-tinsert :
      (nil : V) (getn : Table V → ℕ) (n : ℕ) (t : Table V) (p : ℕ) (v : V)
      → IsLength nil getn
      → IsSequence nil n t
      → v ≢ nil
      → 1 ≤ p
      → p ≤ n + 1
      → n + 2 < 2 ^ 31
      → (w : Table V) × ((tinsert getn t (position_value (pos p) v) >>= λ u.
            tremove nil getn u (some (pos p)))
          ≡ ok (v, w))
        × ((k : ℕ) → w k ≡ t k)
  unfolding tinsert tremove
  tremove-tinsert nil getn n t p v len s some_value h g small = (
    (remove_at nil (n + 1) (insert_at (n + 1) t p v) p).1,
    rw
        (
          len n t (omega arith) s,
          lt→ltb (n + 1) (2 ^ 31) (omega arith),
          le→leb 1 p h,
          le→leb p (n + 1) g,
          len (n + 1) (insert_at (n + 1) t p v) (omega arith)
              (insert_at-IsSequence nil n t p v s some_value h g),
          lt→ltb (n + 1 + 1) (2 ^ 31) (omega arith),
          le→leb p (n + 1 + 1) (omega arith),
        )
        (if_same (p == n + 1) _ ∙ ap (λ x. ok (x, removed)) value_lem),
    λ k. remove-insert nil n t p v k h g ∙ ground (arith, s.behind k),
  )
    where
      removed : Table V
      removed = (remove_at nil (n + 1) (insert_at (n + 1) t p v) p).1

      value_lem : insert_at (n + 1) t p v p ≡ v
      value_lem = insert_at_lem n t p v p h g ∙ rw (==_self p) refl

      if_same : (b : Bool) (x : Outcome (V × Table V)) → (if b then x else x) ≡ x
      if_same true x = refl
      if_same false x = refl

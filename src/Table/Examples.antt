-- ===== src/Table/Examples.antt =====
-- Lua/src/ltablib.cpp: small tables.
use addons_terraria_tshock.Common.{
  ℕ, zero, suc, ◌≤◌, ◌<◌, ◌^◌, Bool-cases, inl, inr, eq_of_==, ◌+◌, ◌==◌, if◌then◌else◌, ltb, leb,
  ltb→lt, ltb→ge, ge→ltb, Bool, true, some, List, [], ◌∷◌, ◌≡◌, refl, arith,
}
use addons_terraria_tshock.Common.Int.{pos}
use addons_terraria_tshock.Common.Outcome.{Outcome, ok, err, error, argerror, ◌>>=◌, Yields}
use addons_terraria_tshock.Table.Sort.{
  raw_get, swap, order, order_middle, scan_up, scan_down, partition, split, auxsort, sort,
}
use addons_terraria_tshock.Table.Swaps.{Permutes}
use addons_terraria_tshock.Table.SortLaws.{sort-Permutes}
use addons_terraria_tshock.Table.Ranges.{answers}
use addons_terraria_tshock.Table.Scans.{IsOrder}
use addons_terraria_tshock.Table.Sorted.{InOrder, sort-InOrder}
use addons_terraria_tshock.Table.Positions.{
  Table, position_value, tinsert, tremove, IsSequence, IsLength, tremove-tinsert,
}

abbrev by_size : ℕ → ℕ → Outcome Bool
by_size v w = ok (ltb v w)

-- An order under which each element comes before the others.
abbrev always : ℕ → ℕ → Outcome Bool
always v w = ok true

abbrev numbers : List ℕ
numbers = 5 ∷ 2 ∷ 8 ∷ 1 ∷ 9 ∷ 3 ∷ []

sort_run : sort by_size numbers ≡ ok (1 ∷ 2 ∷ 3 ∷ 5 ∷ 8 ∷ 9 ∷ [])
unfolding sort auxsort split partition scan_up scan_down order order_middle swap raw_get
sort_run = refl

invalid_order : sort always numbers ≡ err (error "invalid order function for sorting")
unfolding sort auxsort split partition scan_up scan_down order order_middle swap raw_get
invalid_order = refl

sort-Permutes_example : Yields (Permutes numbers) (sort by_size numbers)
sort-Permutes_example = sort-Permutes by_size numbers (λ v w. tt)

ltb-IsOrder : IsOrder ltb
ltb-IsOrder = record {
  asym = λ v w h. ge→ltb w v (omega (arith, ltb→lt v w h));
  le_trans = λ v w x h k. ge→ltb x v (omega (arith, ltb→ge w v h, ltb→ge x w k));
}

sort-InOrder_example :
    (b : List ℕ) × (sort (answers ltb) numbers ≡ ok b) × Permutes numbers b × InOrder ltb b
sort-InOrder_example = sort-InOrder ltb numbers ltb-IsOrder

-- The keys 1, 2 and 3 hold 10, 20 and 30, and nil is 0.
abbrev tens : Table ℕ
tens k = if leb k 3 then k + (k + k + k) + (k + k + k) + (k + k + k) else 0

-- `#` as a search from key k on for the last element, through d keys at most.
search_from : ℕ → ℕ → Table ℕ → ℕ
search_from zero k t = k
search_from (suc d) k t = let rest = search_from d (k + 1) t in if t (k + 1) == 0 then k else rest

search_from-IsLength :
    (d k n : ℕ) (t : Table ℕ) → k ≤ n → n < k + d → IsSequence 0 n t → search_from d k t ≡ n
unfolding search_from
search_from-IsLength zero k n t h l s = absurd (omega arith)
search_from-IsLength (suc d) k n t h l s = elim (Bool-cases (t (k + 1) == 0)) [
  | inl q ↦ rw q (elim (Bool-cases (ltb k n)) [
    | inl a ↦ absurd (s.there (k + 1) (omega arith) (omega (arith, ltb→lt k n a)) (eq_of_== _ _ q))
    | inr a ↦ omega (arith, ltb→ge k n a)
  ])
  | inr q ↦ rw q (elim (Bool-cases (ltb k n)) [
    | inl a ↦ search_from-IsLength d (k + 1) n t (omega (arith, ltb→lt k n a)) (omega arith) s
    | inr a ↦ ground (arith, q, s.behind (k + 1), ltb→ge k n a)
  ])
]

search-IsLength : IsLength 0 (search_from (2 ^ 31) 0)
search-IsLength n t h s = search_from-IsLength (2 ^ 31) 0 n t (omega arith) (omega arith) s

tens-IsSequence : IsSequence 0 3 tens
tens-IsSequence = record { there = λ k l r q. ground (arith, q); behind = λ k l. ground arith }

tremove-tinsert_example :
    (w : Table ℕ) × ((tinsert (search_from (2 ^ 31) 0) tens (position_value (pos 2) 7) >>= λ u.
    tremove 0 (search_from (2 ^ 31) 0) u (some (pos 2)))
      ≡ ok (7, w))
    × ((k : ℕ) → w k ≡ tens k)
tremove-tinsert_example =
    tremove-tinsert 0 (search_from (2 ^ 31) 0) 3 tens 2 7 search-IsLength tens-IsSequence
      (λ q. ground (arith, q)) (omega arith) (omega arith) (omega arith)

-- A value that is nil leaves a shorter table behind, so that the hypothesis on it is needed.
remove_nil :
    (tinsert (search_from 9 0) tens (position_value (pos 3) 0) >>= λ u.
    tremove 0 (search_from 9 0) u (some (pos 4)))
    ≡ err (argerror 1 "position out of bounds")
unfolding tinsert tremove search_from
remove_nil = refl

-- ===== src/Table/Sort.antt =====
-- Lua/src/ltablib.cpp: `table.sort`. The elements 1 to n of the table are a list, and an access beyond
-- them is a fault. The order is a function that may raise an error, and changes nothing. The length
-- is below 2^30, so that no sum of two positions overflows.

use addons_terraria_tshock.Common.{
  ℕ, zero, suc, ◌+◌, ◌-◌, ◌/◌, ◌==◌, if◌then◌else◌, ltb, leb, Bool, List, get_elem?, set, length,
}
use addons_terraria_tshock.Common.Outcome.{Outcome, ok, err, fault, no_fuel, error, ◌>>=◌, or_fault}

module _ {V : Type 0} (less : V → V → Outcome Bool) where
  -- `lua_rawgeti(L, 1, i)`.
  unfoldable pub raw_get : List V → ℕ → Outcome V
  raw_get a zero = fault
  raw_get a (suc i) = or_fault (get_elem? a i)

  -- `lua_rawseti(L, 1, i)`.
  abbrev pub raw_set : List V → ℕ → V → List V
  raw_set a zero v = a
  raw_set a (suc i) v = set a i v

  -- `set2` after a[i] and a[j] were read: they are swapped.
  unfoldable pub swap : List V → ℕ → ℕ → Outcome (List V)
  swap a i j = do v ← raw_get a i; w ← raw_get a j; ok (raw_set (raw_set a i w) j v)

  -- a[i] and a[j] are swapped if a[j] < a[i].
  unfoldable pub order : List V → ℕ → ℕ → Outcome (List V)
  order a i j = do v ← raw_get a i; w ← raw_get a j; b ← less w v; if b then swap a i j else ok a

  -- The second and third elements that are put in order, a[i] with a[l] and with a[u].
  unfoldable pub order_middle : List V → ℕ → ℕ → ℕ → Outcome (List V)
  order_middle a l i u = do
    v ← raw_get a i
    w ← raw_get a l
    b ← less v w
    if b then swap a i l else order a i u

  -- `while (lua_rawgeti(L, 1, ++i), sort_comp(L, -1, -2))`.
  unfoldable pub scan_up : ℕ → List V → V → ℕ → ℕ → Outcome ℕ
  scan_up zero a p u i = no_fuel
  scan_up (suc n) a p u i =
      let rest = scan_up n a p u (i + 1) in
      (do
        v ← raw_get a (i + 1)
        b ← less v p
        if b
            then (if leb u (i + 1) then err (error "invalid order function for sorting") else rest)
            else ok (i + 1))

  -- `while (lua_rawgeti(L, 1, --j), sort_comp(L, -3, -1))`.
  unfoldable pub scan_down : ℕ → List V → V → ℕ → ℕ → Outcome ℕ
  scan_down zero a p l j = no_fuel
  scan_down (suc n) a p l j =
      let rest = scan_down n a p l (j - 1) in
      (do
        v ← raw_get a (j - 1)
        b ← less p v
        if b
            then (if leb (j - 1) l then err (error "invalid order function for sorting") else rest)
            else ok (j - 1))

  -- `for (;;)`: the elements with the pivot p, and where it belongs.
  unfoldable pub partition : ℕ → List V → V → ℕ → ℕ → ℕ → ℕ → Outcome (ℕ × List V)
  partition zero a p l u i j = no_fuel
  partition (suc n) a p l u i j = do
    i1 ← scan_up (u + 1) a p u i
    j1 ← scan_down (u + 1) a p l j
    if ltb j1 i1 then ok (i1, a) else (do b ← swap a i1 j1; partition n b p l u i1 j1)

  -- The preparation of a range of more than three elements: the pivot goes to u - 1.
  unfoldable pub split : List V → ℕ → ℕ → ℕ → Outcome (ℕ × List V)
  split a l i u = do
    p ← raw_get a i
    b ← swap a i (u - 1)
    (i1, c) ← partition (u + 1) b p l u l (u - 1)
    d ← swap c (u - 1) i1
    ok (i1, d)

  -- The loop of `auxsort`; the smaller part is sorted by the recursive call.
  unfoldable pub auxsort : ℕ → ℕ → ℕ → List V → Outcome (List V)
  auxsort zero l u a = no_fuel
  auxsort (suc n) l u a =
      if ltb l u
      then (do
        b ← order a l u
        if u - l == 1 then ok b else (do
          c ← order_middle b l ((l + u) / 2) u
          if u - l == 2 then ok c else (do
            (i, d) ← split c l ((l + u) / 2) u
            if ltb (i - l) (u - i)
                then auxsort n l (i - 1) d >>= auxsort n (i + 1) u
                else auxsort n (i + 1) u d >>= auxsort n l (i - 1))))
      else ok a

  unfoldable pub sort : List V → Outcome (List V)
  sort a = auxsort (length a + 1) 1 (length a) a

-- ===== src/Arrays.antt =====
-- Lua/src/ltable.cpp: the array part of a table, and its boundary. The hash part is a function from a key
-- that is an int to its value, and `node_is_dummy` says that it has no node. nil is `none`.
pub mod Border
pub mod Sizes
mod Examples
use addons_terraria_tshock.Common.{
  ℕ, zero, suc, ◌+◌, ◌-◌, ◌*◌, ◌/◌, ◌^◌, ◌==◌, ltb, if◌then◌else◌, Bool, true, false, ◌&&◌, Option,
  none, some, List, get_elem?, length,
}
use addons_terraria_tshock.Common.Outcome.{Outcome, ok, fault, no_fuel, ◌>>=◌, or_fault}

pub record Table (V : Type 0) : Type 0 where
  pub array : List (Option V)
  pub node : ℕ → Option V
  pub node_is_dummy : Bool

module _ {V : Type 0} where
  abbrev pub sizearray : Table V → ℕ
  sizearray t = length t.array

  abbrev pub is_nil : Option V → Bool
  is_nil none = true
  is_nil (some v) = false

  -- `ttisnil(&t->array[k - 1])`, which is undefined outside of the array part.
  unfoldable pub array_is_nil : Table V → ℕ → Outcome Bool
  array_is_nil t zero = fault
  array_is_nil t (suc k) = do v ← or_fault (get_elem? t.array k); ok (is_nil v)

  -- `luaH_getint`, for a key from 1 to MAX_INT.
  unfoldable pub lua_h_getint : Table V → ℕ → Outcome (Option V)
  lua_h_getint t key =
      if ltb (key - 1) (sizearray t)
      then or_fault (get_elem? t.array (key - 1))
      else ok (t.node key)

  abbrev pub getint_is_nil : Table V → ℕ → Outcome Bool
  getint_is_nil t k = lua_h_getint t k >>= λ v. ok (is_nil v)

-- `while (j - i > 1)`: i is zero or present, and j is not.
unfoldable pub binary_search : (ℕ → Outcome Bool) → ℕ → ℕ → ℕ → Outcome ℕ
binary_search nil_at zero i j = no_fuel
binary_search nil_at (suc n) i j =
    let m = (i + j) / 2 in
    let low = binary_search nil_at n i m in
    let high = binary_search nil_at n m j in
    if ltb 1 (j - i) then (do b ← nil_at m; if b then low else high) else ok i

-- `while (!ttisnil(luaH_getint(t, i))) i++;`
unfoldable pub linear_search : (ℕ → Outcome Bool) → ℕ → ℕ → Outcome ℕ
linear_search nil_at zero i = no_fuel
linear_search nil_at (suc n) i =
    let rest = linear_search nil_at n (i + 1) in (do b ← nil_at i; if b then ok (i - 1) else rest)

-- MAX_INT.
abbrev pub max_int : ℕ
max_int = 2 ^ 31 - 1 - 2

-- `while (!ttisnil(luaH_getint(t, j)))`, and what follows it. An index doubles in each round.
unfoldable pub double_search : (ℕ → Outcome Bool) → ℕ → ℕ → ℕ → Outcome ℕ
double_search nil_at zero i j = no_fuel
double_search nil_at (suc n) i j =
    let rest = double_search nil_at n j (j * 2) in
    (do
      b ← nil_at j
      if b
          then binary_search nil_at j i j
          else (if ltb max_int (j * 2) then linear_search nil_at (2 ^ 31) 1 else rest))

module _ {V : Type 0} where
  unfoldable pub unbound_search : Table V → ℕ → Outcome ℕ
  unbound_search t j = double_search (getint_is_nil t) 32 j (j + 1)

  abbrev pub in_hash : Table V → ℕ → Outcome ℕ
  in_hash t j = if t.node_is_dummy then ok j else unbound_search t j

  unfoldable pub lua_h_getn : Table V → Outcome ℕ
  lua_h_getn t =
      let j = sizearray t in
      if ltb 0 j
      then (do
        b ← array_is_nil t j
        if b then binary_search (array_is_nil t) j 0 j else in_hash t j)
      else in_hash t j

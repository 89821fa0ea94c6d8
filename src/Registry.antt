-- ===== src/Registry.antt =====
-- Lua/src/lauxlib.cpp: the references of `luaL_ref` and `luaL_unref` into a table, such as the
-- registry, in which C code keeps Lua values alive. Values are neither nil nor numbers, as those of
-- the callers that are modelled.
pub mod Laws
mod Examples
use addons_terraria_tshock.Common.{
  ℕ, zero, suc, ◌-◌, ◌==◌, if◌then◌else◌, Option, none, some, List, [], ◌∷◌, ◌++◌, length,
  get_elem?, set,
}

-- What a positive index of the table holds: a value, or the next free reference.
pub data Slot (V : Type 0) : Type 0 where
  stored : V → Slot V
  next : ℕ → Slot V

-- `free` is the integer at index `freelist`, and slot i has index i + 1.
pub record Registry (V : Type 0) : Type 0 where
  pub free : ℕ
  pub slots : List (Slot V)

module _ {V : Type 0} where
  -- `lua_tointeger` of an element: 0 for a value.
  abbrev pub to_index : Option (Slot V) → ℕ
  to_index (some (next n)) = n
  to_index _ = 0

  abbrev pub slot : Registry V → ℕ → Option (Slot V)
  slot r zero = none
  slot r (suc i) = get_elem? r.slots i

  abbrev pub set_slot : List (Slot V) → ℕ → Slot V → List (Slot V)
  set_slot s zero x = s
  set_slot s (suc i) x = set s i x

  -- The value that `lua_rawgeti` finds at a reference.
  abbrev pub value_of : Option (Slot V) → Option V
  value_of (some (stored v)) = some v
  value_of _ = none

  unfoldable pub lookup : Registry V → ℕ → Option V
  lookup r i = value_of (slot r i)

  -- `luaL_ref`: the new reference and the new table.
  unfoldable pub ref : V → Registry V → ℕ × Registry V
  ref v r =
      if r.free == 0
      then (suc (length r.slots), record r { slots = r.slots ++ (stored v ∷ []) })
      else (
        r.free,
        record { free = to_index (slot r r.free); slots = set_slot r.slots r.free (stored v) },
      )

  -- `luaL_unref`; LUA_NOREF is `none`.
  unfoldable pub unref : Option ℕ → Registry V → Registry V
  unref none r = r
  unref (some i) r = record { free = i; slots = set_slot r.slots i (next r.free) }

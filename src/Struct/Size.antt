-- ===== src/Struct/Size.antt =====
-- Lua/include/lstruct/struct.h: `b_size`.
use addons_terraria_tshock.Common.{
  ℕ, zero, suc, Bool, not, ◌&&◌, ◌||◌, leb, ◌==◌, if◌then◌else◌, List, [], ◌∷◌, length,
}
use addons_terraria_tshock.Common.Int.{ℤ, to_signed}
use addons_terraria_tshock.Common.Outcome.{Outcome, ok, no_fuel, ◌>>=◌, ◌>>◌, argcheck}
use addons_terraria_tshock.Struct.Format.{
  cstring, isdigit, kind, optsize, Header, defaultoptions, gettoalign, controloptions, size_add,
}

unfoldable pub isalnum : ℕ → Bool
unfolding isdigit
isalnum c = isdigit c || leb b'A' c && leb c b'Z' || leb b'a' c && leb c b'z'

-- One round of the loop: the rest of the format, the header and the position.
unfoldable pub size_step : ℕ → List ℕ → Header → ℕ → Outcome (List ℕ × Header × ℕ)
unfolding isalnum optsize gettoalign controloptions
size_step c cs h pos = do
  (size, fmt) ← optsize (kind c) cs
  let pos' = size_add pos (gettoalign pos h (kind c) size)
  argcheck (not (c == b's')) 1 "option 's' has no fixed size"
  argcheck (not (c == b'c' && size == 0)) 1 "option 'c0' has no fixed size"
  (h', rest) ← if isalnum c then ok (h, fmt) else controloptions c fmt h
  ok (rest, h', size_add pos' size)

unfoldable pub size_loop : ℕ → List ℕ → Header → ℕ → Outcome ℕ
unfolding size_step
size_loop fuel [] h pos = ok pos
size_loop zero (c ∷ cs) h pos = no_fuel
size_loop (suc fuel) (c ∷ cs) h pos = do
  (fmt, h', pos') ← size_step c cs h pos
  size_loop fuel fmt h' pos'

-- `lua_pushinteger` takes a signed integer of the size of `size_t`.
unfoldable pub b_size : List ℕ → Outcome ℤ
unfolding size_loop cstring
b_size format =
    let fmt = cstring format in
    do pos ← size_loop (length fmt) fmt defaultoptions 0; ok (to_signed pos)

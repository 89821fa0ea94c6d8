-- ===== src/Struct/Integer.antt =====
-- Lua/include/lstruct/struct.h: integers as bytes (`putinteger`, `getinteger`) and `correctbytes`.
use addons_terraria_tshock.Common.{
  ℕ, zero, suc, ◌+◌, ◌-◌, ◌*◌, ◌/◌, ◌%◌, ◌^◌, bit_and, bit_or, Bool, true, false, ◌&&◌, ltb, leb,
  ◌==◌, if◌then◌else◌, List, [], ◌∷◌, get_or, set,
}
use addons_terraria_tshock.Common.Outcome.{Outcome, ok, ◌>>◌, defined}

-- The loops of `putinteger`: `size` bytes of the value, written upwards, or downwards in front of
-- those that are there.
unfoldable pub put_little : ℕ → ℕ → List ℕ
put_little zero value = []
put_little (suc size) value = bit_and value 0xff ∷ put_little size (value / 2 ^ 8)

unfoldable pub put_big : ℕ → ℕ → List ℕ → List ℕ
put_big zero value buff = buff
put_big (suc size) value buff = put_big size (value / 2 ^ 8) (bit_and value 0xff ∷ buff)

unfoldable pub putinteger : Bool → ℕ → ℕ → List ℕ
unfolding put_little put_big
putinteger true value size = put_little size value
putinteger false value size = put_big size value []

-- The loops of `getinteger`, from the first byte on and from the last.
unfoldable pub get_big : ℕ → List ℕ → ℕ
get_big l [] = l
get_big l (b ∷ bs) = get_big (bit_or (l * 2 ^ 8 % 2 ^ 32) b) bs

unfoldable pub get_little : List ℕ → ℕ
get_little [] = 0
get_little (b ∷ bs) = bit_or (get_little bs * 2 ^ 8 % 2 ^ 32) b

unfoldable pub get_word : Bool → List ℕ → ℕ
unfolding get_little get_big
get_word true buff = get_little buff
get_word false buff = get_big 0 buff

-- `(~0) << (size * 8 - 1)` is defined for a shift that is less than the 32 bits of `Uinttype`.
unfoldable pub sign_extend : ℕ → ℕ → Outcome ℕ
sign_extend l size = do
  defined (ltb 0 size && leb size 4)
  let mask = (2 ^ 32 - 1) * 2 ^ (size * 8 - 1) % 2 ^ 32
  ok (if bit_and l mask == 0 then l else bit_or l mask)

-- `correctbytes`: the loop exchanges the bytes at i and at the decremented size while i is below it.
-- Both are inside the array.
unfoldable pub swap_loop : List ℕ → ℕ → ℕ → List ℕ
swap_loop b i zero = b
swap_loop b i (suc size) =
    let rest = swap_loop (set (set b i (get_or b size 0)) size (get_or b i 0)) (i + 1) size in
    if ltb i size then rest else b

-- The native order is little.
unfoldable pub correctbytes : List ℕ → ℕ → Bool → List ℕ
unfolding swap_loop
correctbytes b size true = b
correctbytes b size false = swap_loop b 0 size

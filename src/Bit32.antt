-- ===== src/Bit32.antt =====
-- Lua/src/lbitlib.cpp: the bit32 library. Arguments are the values that `luaL_checkunsigned` (a
-- number below 2 ^ 32) and `luaL_checkint` (a 32-bit signed integer) return; results are what
-- `lua_pushunsigned` is given.
pub mod Words
pub mod Logic
pub mod Shifts
pub mod Fields
mod Examples
use addons_terraria_tshock.Common.{
  ℕ, zero, suc, ◌+◌, ◌-◌, ◌*◌, ◌/◌, ◌%◌, ◌^◌, bit_and, bit_or, bit_xor, ltb, leb, ◌==◌,
  if◌then◌else◌, Bool, true, false, not, ◌||◌, List, [], ◌∷◌, Option, none, some,
}
use addons_terraria_tshock.Common.Words.{allones, complement, shl, shr}
use addons_terraria_tshock.Common.Int.{ℤ, pos, negsuc, to_unsigned}
use addons_terraria_tshock.Common.Outcome.{
  Outcome, ok, err, fault, argerror, ◌>>=◌, ◌>>◌, argcheck, error_if, defined,
}

-- `lua_Unsigned` is a 32-bit word, and LUA_NBITS is 32.
abbrev pub nbits : ℕ
nbits = 32

pub trim : ℕ → ℕ
trim x = bit_and x allones

-- `mask(n)`: n ones, for 1 <= n <= 32.
pub mask : ℕ → ℕ
mask n = complement (shl (shl allones 1) (n - 1))

-- The loop of `andaux` over the arguments, from the accumulator.
pub and_loop : ℕ → List ℕ → ℕ
and_loop r [] = r
and_loop r (x ∷ xs) = and_loop (bit_and r x) xs

pub andaux : List ℕ → ℕ
unfolding and_loop trim
andaux xs = trim (and_loop allones xs)

pub b_and : List ℕ → ℕ
unfolding andaux
b_and xs = andaux xs

pub b_test : List ℕ → Bool
unfolding andaux
b_test xs = not (andaux xs == 0)

pub or_loop : ℕ → List ℕ → ℕ
or_loop r [] = r
or_loop r (x ∷ xs) = or_loop (bit_or r x) xs

pub b_or : List ℕ → ℕ
unfolding or_loop trim
b_or xs = trim (or_loop 0 xs)

pub xor_loop : ℕ → List ℕ → ℕ
xor_loop r [] = r
xor_loop r (x ∷ xs) = xor_loop (bit_xor r x) xs

pub b_xor : List ℕ → ℕ
unfolding xor_loop trim
b_xor xs = trim (xor_loop 0 xs)

pub b_not : ℕ → ℕ
unfolding trim
b_not x = trim (complement x)

-- `-i` on an `int`; that of the least integer overflows.
pub negate : ℤ → Outcome ℤ
negate (pos zero) = ok (pos 0)
negate (pos (suc n)) = ok (negsuc n)
negate (negsuc n) = if n == 2 ^ 31 - 1 then fault else ok (pos (suc n))

-- The two branches of `b_shift`, by the distance.
pub shift_right : ℕ → ℕ → ℕ
unfolding trim
shift_right r n = if leb nbits n then 0 else shr (trim r) n

pub shift_left : ℕ → ℕ → ℕ
unfolding trim
shift_left r n = if leb nbits n then trim 0 else trim (shl r n)

pub b_shift : ℕ → ℤ → Outcome ℕ
unfolding shift_right shift_left
b_shift r (pos n) = ok (shift_left r n)
b_shift r (negsuc n) = if n == 2 ^ 31 - 1 then fault else ok (shift_right r (suc n))

pub b_lshift : ℕ → ℤ → Outcome ℕ
unfolding b_shift
b_lshift r i = b_shift r i

pub b_rshift : ℕ → ℤ → Outcome ℕ
unfolding b_shift negate
b_rshift r i = do j ← negate i; b_shift r j

-- The second branch of `b_arshift`: the sign bit is set and i >= 0.
pub sign_shift : ℕ → ℕ → ℕ
unfolding trim
sign_shift r n =
    if leb nbits n then allones else trim (bit_or (shr r n) (complement (shr allones n)))

pub b_arshift : ℕ → ℤ → Outcome ℕ
unfolding b_shift negate sign_shift
b_arshift r (negsuc n) = do j ← negate (negsuc n); b_shift r j
b_arshift r (pos n) =
    if bit_and r (2 ^ 31) == 0 then (do j ← negate (pos n); b_shift r j) else ok (sign_shift r n)

-- `b_rot` after `i &= LUA_NBITS - 1`.
pub rotate : ℕ → ℕ → ℕ
unfolding trim
rotate r n =
    if n == 0 then trim (trim r) else trim (bit_or (shl (trim r) n) (shr (trim r) (nbits - n)))

pub b_rot : ℕ → ℤ → ℕ
unfolding rotate
b_rot r i = rotate r (bit_and (to_unsigned i) (nbits - 1))

pub b_lrot : ℕ → ℤ → Outcome ℕ
unfolding b_rot
b_lrot r i = ok (b_rot r i)

pub b_rrot : ℕ → ℤ → Outcome ℕ
unfolding b_rot negate
b_rrot r i = do j ← negate i; ok (b_rot r j)

-- `fieldargs`, for the field f at argument `farg` and the width w behind it. The sum of the two
-- `int`s is computed before it is compared.
pub fieldargs : ℕ → ℤ → ℤ → Outcome (ℕ × ℕ)
fieldargs farg (negsuc f) w = err (argerror farg "field cannot be negative")
fieldargs farg (pos f) (negsuc w) = err (argerror (farg + 1) "width must be positive")
fieldargs farg (pos f) (pos w) = do
  argcheck (ltb 0 w) (farg + 1) "width must be positive"
  defined (ltb (f + w) (2 ^ 31))
  error_if (ltb nbits (f + w)) "trying to access non-existent bits"
  ok (f, w)

-- `luaL_optint(L, farg + 1, 1)`.
pub optwidth : Option ℤ → ℤ
optwidth none = pos 1
optwidth (some w) = w

pub extract_bits : ℕ → ℕ → ℕ → ℕ
unfolding mask
extract_bits r f w = bit_and (shr r f) (mask w)

pub b_extract : ℕ → ℤ → Option ℤ → Outcome ℕ
unfolding fieldargs optwidth extract_bits
b_extract r field width = do (f, w) ← fieldargs 2 field (optwidth width); ok (extract_bits r f w)

-- The mask m is an `int` here. `m << f` is defined if m is not negative and `m * 2 ^ f` is an `int`;
-- as a word m is 2 ^ 31 or more if it is negative.
pub replace_bits : ℕ → ℕ → ℕ → ℕ → Outcome ℕ
unfolding mask
replace_bits r v f w = do
  let m = mask w
  defined (ltb (m * 2 ^ f) (2 ^ 31))
  ok (bit_or (bit_and r (complement (shl m f))) (shl (bit_and v m) f))

pub b_replace : ℕ → ℕ → ℤ → Option ℤ → Outcome ℕ
unfolding fieldargs optwidth replace_bits
b_replace r v field width = do (f, w) ← fieldargs 3 field (optwidth width); replace_bits r v f w

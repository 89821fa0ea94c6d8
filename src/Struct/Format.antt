-- ===== src/Struct/Format.antt =====
-- Lua/include/lstruct/struct.h: the format string. A format is the list of its bytes up to the
-- first zero; `fmt` in the source points at the rest of that list.
use addons_terraria_tshock.Common.{
  ℕ, ◌+◌, ◌-◌, ◌*◌, ◌%◌, ◌^◌, bit_and, Bool, true, false, ◌&&◌, ◌||◌, ltb, leb, ◌==◌, if◌then◌else◌,
  List, [], ◌∷◌,
}
use addons_terraria_tshock.Common.Outcome.{Outcome, ok, err, fault, argerror, ◌>>=◌, ◌>>◌, error_if}

-- The bytes of a Lua string that a C function reads as a format.
unfoldable pub cstring : List ℕ → List ℕ
cstring [] = []
cstring (c ∷ cs) = if c == 0 then [] else c ∷ cstring cs

unfoldable pub isdigit : ℕ → Bool
isdigit c = leb b'0' c && leb c b'9'

-- The loop of `getnum`; the sum is an `int`.
unfoldable pub digits_loop : ℕ → List ℕ → Outcome (ℕ × List ℕ)
unfolding isdigit
digits_loop a [] = ok (a, [])
digits_loop a (c ∷ cs) =
    let rest = digits_loop (a * 10 + c - b'0') cs in
    if isdigit c then (if ltb (a * 10 + c) (2 ^ 31) then rest else fault) else ok (a, c ∷ cs)

unfoldable pub getnum : List ℕ → ℕ → Outcome (ℕ × List ℕ)
unfolding digits_loop
getnum [] df = ok (df, [])
getnum (c ∷ cs) df = if isdigit c then digits_loop 0 (c ∷ cs) else ok (df, c ∷ cs)

-- The cases that the switches on an option distinguish.
pub data Kind : Type 0 where
  byte short long size_type int float double pad chars zstring control : Kind

unfoldable pub kind : ℕ → Kind
kind c =
    if c == b'b' || c == b'B'
    then byte
    else if c == b'h' || c == b'H'
    then short
    else if c == b'l' || c == b'L'
    then long
    else if c == b'T'
    then size_type
    else if c == b'i' || c == b'I'
    then int
    else if c == b'f'
    then float
    else if c == b'd'
    then double
    else if c == b'x'
    then pad
    else if c == b'c'
    then chars
    else if c == b's'
    then zstring
    else control

abbrev pub maxintsize : ℕ
maxintsize = 32

-- `optsize`, with the rest of the format.
unfoldable pub optsize : Kind → List ℕ → Outcome (ℕ × List ℕ)
unfolding getnum
optsize byte fmt = ok (1, fmt)
optsize short fmt = ok (2, fmt)
optsize long fmt = ok (4, fmt)
optsize size_type fmt = ok (4, fmt)
optsize float fmt = ok (4, fmt)
optsize double fmt = ok (8, fmt)
optsize pad fmt = ok (1, fmt)
optsize chars fmt = getnum fmt 1
optsize int fmt = do
  (sz, rest) ← getnum fmt 4
  error_if (ltb maxintsize sz) "integral size %d is larger than limit of %d"
  ok (sz, rest)
optsize zstring fmt = ok (0, fmt)
optsize control fmt = ok (0, fmt)

pub record Header : Type 0 where
  pub little : Bool
  pub align : ℕ

-- `defaultoptions`: the native order is little.
abbrev pub defaultoptions : Header
defaultoptions = record { little = true; align = 1 }

unfoldable pub is_chars : Kind → Bool
is_chars chars = true
is_chars _ = false

-- `gettoalign`, on a size that is at most the alignment.
unfoldable pub to_boundary : ℕ → ℕ → ℕ
to_boundary len size = bit_and (size - bit_and len (size - 1)) (size - 1)

unfoldable pub gettoalign : ℕ → Header → Kind → ℕ → ℕ
unfolding is_chars to_boundary
gettoalign len h opt size =
    if size == 0 || is_chars opt
    then 0
    else to_boundary len (if ltb h.align size then h.align else size)

abbrev pub maxalign : ℕ
maxalign = 8

unfoldable pub isp2 : ℕ → Bool
isp2 x = ltb 0 x && bit_and x (x - 1) == 0

-- `controloptions`, with the new header and the rest of the format.
unfoldable pub controloptions : ℕ → List ℕ → Header → Outcome (Header × List ℕ)
unfolding getnum isp2
controloptions c fmt h =
    if c == b' '
    then ok (h, fmt)
    else if c == b'>'
    then ok (record h { little = false }, fmt)
    else if c == b'<'
    then ok (record h { little = true }, fmt)
    else if c == b'!'
    then (do
      (a, rest) ← getnum fmt maxalign
      error_if (if isp2 a then false else true) "alignment %d is not a power of 2"
      ok (record h { align = a }, rest))
    else err (argerror 1 "invalid format option '%c'")

-- `size_t` arithmetic.
abbrev pub size_add : ℕ → ℕ → ℕ
size_add a b = (a + b) % 2 ^ 32

-- ===== src/Struct/Unpack.antt =====
-- Lua/include/lstruct/struct.h: `getinteger` and `b_unpack`. A read beyond the data string is a
-- fault. The growth of the Lua stack (`luaL_checkstack`) is taken to succeed.
use addons_terraria_tshock.Common.{
  ℕ, zero, suc, ◌+◌, ◌-◌, ◌^◌, Bool, true, false, leb, ltb, ◌==◌, ◌&&◌, if◌then◌else◌, Option, none,
  some, List, [], ◌∷◌, length, take, drop, reverse,
}
use addons_terraria_tshock.Common.Int.{ℤ, pos, negsuc, to_signed, to_unsigned}
use addons_terraria_tshock.Common.Outcome.{
  Outcome, ok, err, no_fuel, fault, error, ◌>>=◌, ◌>>◌, argcheck, defined,
}
use addons_terraria_tshock.Struct.Host.{Host}
use addons_terraria_tshock.Struct.Format.{
  cstring, Kind, kind, optsize, Header, defaultoptions, gettoalign, controloptions, size_add,
}
use addons_terraria_tshock.Struct.Format.{byte, short, long, size_type, int, float, double, pad}
use addons_terraria_tshock.Struct.Format.{chars, zstring, control}
use addons_terraria_tshock.Struct.Integer.{get_word, sign_extend, correctbytes}

-- The `size` bytes at `data + at`.
unfoldable pub read : List ℕ → ℕ → ℕ → Outcome (List ℕ)
read bytes at size = do defined (leb (at + size) (length bytes)); ok (take size (drop at bytes))

-- `memchr(s, '\0', ...)`: how far the first zero is.
unfoldable pub find_zero : List ℕ → Option ℕ
find_zero [] = none
find_zero (c ∷ cs) =
    let rest = find_zero cs in
    if c == 0 then some 0 else elim rest [ none ↦ none | some n ↦ some (suc n) ]

unfoldable pub islower : ℕ → Bool
islower c = leb b'a' c && leb c b'z'

module _ (h : Host) where
  open h use {Value, Number}

  unfoldable pub getinteger : List ℕ → Bool → Bool → ℕ → Outcome Number
  unfolding get_word sign_extend
  getinteger buff little true size = do
    l ← sign_extend (get_word little buff) size
    ok (h.of_inttype (to_signed l))
  getinteger buff little false size = ok (h.of_uinttype (get_word little buff))

  -- The variables of the loop of `b_unpack`. The stack has its top first.
  pub record Unpacker : Type 0 where
    pub header : Header
    pub at : ℕ
    pub stack : List Value

  abbrev push : Unpacker → Value → Unpacker
  push u v = record u { stack = v ∷ u.stack }

  -- The cases of the switch: the rest of the format, the size of the item, and the new state.
  unfoldable pub unpack_integer :
      List ℕ → ℕ → List ℕ → ℕ → Unpacker → Outcome (List ℕ × ℕ × Unpacker)
  unfolding read islower getinteger
  unpack_integer bytes c fmt size u = do
    buff ← read bytes u.at size
    n ← getinteger buff u.header.little (islower c) size
    ok (fmt, size, push u (h.pushnumber n))

  unfoldable pub unpack_float :
      (List ℕ → Number) → List ℕ → List ℕ → ℕ → Unpacker → Outcome (List ℕ × ℕ × Unpacker)
  unfolding read
  unpack_float value bytes fmt size u = do
    buff ← read bytes u.at size
    ok (fmt, size, push u (h.pushnumber (value (correctbytes buff size u.header.little))))

  -- `c0` takes the size from the number on top of the stack, and removes it.
  unfoldable pub top_size : List Value → Outcome (ℕ × List Value)
  top_size [] = fault
  top_size (v ∷ rest) = elim (h.checknumber v) [
    | none ↦ err (error "format `c0' needs a previous size")
    | some n ↦ ok (h.to_size n, rest)
  ]

  unfoldable pub unpack_chars : List ℕ → List ℕ → ℕ → Unpacker → Outcome (List ℕ × ℕ × Unpacker)
  unfolding read top_size
  unpack_chars bytes fmt zero u = do
    (size, rest) ← top_size u.stack
    argcheck (leb (size_add u.at size) (length bytes)) 2 "data string too short"
    s ← read bytes u.at size
    ok (fmt, size, record u { stack = h.pushlstring s ∷ rest })
  unpack_chars bytes fmt (suc n) u = do
    s ← read bytes u.at (suc n)
    ok (fmt, suc n, push u (h.pushlstring s))

  unfoldable pub unpack_zstring : List ℕ → List ℕ → Unpacker → Outcome (List ℕ × ℕ × Unpacker)
  unfolding find_zero
  unpack_zstring bytes fmt u = do
    defined (leb u.at (length bytes))
    elim (find_zero (drop u.at bytes)) [
      | none ↦ err (error "unfinished string in data")
      | some n ↦ ok (fmt, n + 1, push u (h.pushlstring (take n (drop u.at bytes))))
    ]

  unfoldable pub unpack_option :
      List ℕ → ℕ → Kind → List ℕ → ℕ → Unpacker → Outcome (List ℕ × ℕ × Unpacker)
  unfolding unpack_integer unpack_float unpack_chars unpack_zstring
  unpack_option bytes c byte fmt size u = unpack_integer bytes c fmt size u
  unpack_option bytes c short fmt size u = unpack_integer bytes c fmt size u
  unpack_option bytes c long fmt size u = unpack_integer bytes c fmt size u
  unpack_option bytes c size_type fmt size u = unpack_integer bytes c fmt size u
  unpack_option bytes c int fmt size u = unpack_integer bytes c fmt size u
  unpack_option bytes c pad fmt size u = ok (fmt, size, u)
  unpack_option bytes c float fmt size u = unpack_float h.of_float_bytes bytes fmt size u
  unpack_option bytes c double fmt size u = unpack_float h.of_double_bytes bytes fmt size u
  unpack_option bytes c chars fmt size u = unpack_chars bytes fmt size u
  unpack_option bytes c zstring fmt size u = unpack_zstring bytes fmt u
  unpack_option bytes c control fmt size u = do
    (header, rest) ← controloptions c fmt u.header
    ok (rest, size, record u { header = header })

  -- One round of the loop of `b_unpack`; the sums are of `size_t`.
  unfoldable pub unpack_step : List ℕ → ℕ → List ℕ → Unpacker → Outcome (List ℕ × Unpacker)
  unfolding unpack_option optsize gettoalign
  unpack_step bytes c cs u = do
    (size, fmt) ← optsize (kind c) cs
    let at = size_add u.at (gettoalign u.at u.header (kind c) size)
    argcheck (leb (size_add at size) (length bytes)) 2 "data string too short"
    (rest, grown, v) ← unpack_option bytes c (kind c) fmt size (record u { at = at })
    ok (rest, record v { at = size_add v.at grown })

  unfoldable pub unpack_loop : ℕ → List ℕ → List ℕ → Unpacker → Outcome Unpacker
  unfolding unpack_step
  unpack_loop fuel bytes [] u = ok u
  unpack_loop zero bytes (c ∷ cs) u = no_fuel
  unpack_loop (suc fuel) bytes (c ∷ cs) u = do
    (fmt, v) ← unpack_step bytes c cs u
    unpack_loop fuel bytes fmt v

  -- Whether `luaL_optinteger(L, 3, 1) - 1` is an `int`.
  abbrev not_least : ℤ → Bool
  not_least (pos n) = true
  not_least (negsuc n) = ltb n (2 ^ 31 - 1)

  -- The results: the values above the two arguments, the first one first, and the next position.
  unfoldable pub b_unpack : List ℕ → List ℕ → ℤ → Outcome (List Value)
  unfolding unpack_loop cstring
  b_unpack format bytes start =
      let fmt = cstring format in
      do
        defined (not_least start)
        u ← unpack_loop (length fmt) bytes fmt (record {
          header = defaultoptions;
          at = size_add (to_unsigned start) (2 ^ 32 - 1);
          stack = h.pushlstring bytes ∷ h.pushlstring format ∷ [];
        })
        let final = h.pushnumber (h.of_inttype (to_signed (size_add u.at 1))) ∷ u.stack
        ok (reverse (take (length final - 2) final))

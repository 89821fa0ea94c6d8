-- ===== src/Struct/Examples.antt =====
-- Lua/include/lstruct/struct.h: runs of the library over whole numbers, and its theorems at concrete
-- formats.
use addons_terraria_tshock.Common.{
  ℕ, ◌%◌, ◌^◌, ◌≡◌, ◌≢◌, refl, Bool, true, false, Option, none, some, List, [], ◌∷◌, length,
  replicate, All, arith,
}
use addons_terraria_tshock.Common.Int.{ℤ, pos, negsuc, to_unsigned, to_signed}
use addons_terraria_tshock.Common.Outcome.{ok, err, fault, no_fuel, argerror}
use addons_terraria_tshock.Struct.Format.{kind, defaultoptions, controloptions}
use addons_terraria_tshock.Struct.Host.{Host, Laws, to_word}
use addons_terraria_tshock.Struct.Integer.{putinteger, correctbytes}
use addons_terraria_tshock.Struct.Pack.{b_pack}
use addons_terraria_tshock.Struct.Size.{b_size}
use addons_terraria_tshock.Struct.Unpack.{b_unpack, getinteger}
use addons_terraria_tshock.Struct.Bytes.{getinteger-putinteger}
use addons_terraria_tshock.Struct.Sizes.{b_size-b_pack}
use addons_terraria_tshock.Struct.Alignment.{IsPower, controloptions-IsPower}
use addons_terraria_tshock.Struct.Ending.{loops_end}
use addons_terraria_tshock.Struct.Bounds.{IsSimple, b_unpack_before, b_unpack_safe}

data LuaValue : Type 0 where
  number : ℤ → LuaValue
  string : List ℕ → LuaValue

abbrev is_neg : ℤ → Bool
is_neg (pos n) = false
is_neg (negsuc n) = true

abbrev as_number : LuaValue → Option ℤ
as_number (number z) = some z
as_number (string s) = none

abbrev as_string : LuaValue → Option (List ℕ)
as_string (number z) = none
as_string (string s) = some s

-- A host whose numbers are whole.
abbrev whole : Host
whole = record {
  Value = LuaValue;
  Number = ℤ;
  checknumber = as_number;
  checklstring = as_string;
  pushnumber = number;
  pushlstring = string;
  is_negative = is_neg;
  to_inttype = λ z. z;
  to_uinttype = to_unsigned;
  to_size = to_unsigned;
  of_inttype = λ z. z;
  of_uinttype = pos;
  float_bytes = λ z. to_unsigned z ∷ replicate 3 0;
  double_bytes = λ z. to_unsigned z ∷ replicate 7 0;
  of_float_bytes = λ s. pos (length s);
  of_double_bytes = λ s. pos (length s);
}

whole-Laws : Laws whole
whole-Laws = record {
  checknumber-pushnumber = λ n. refl;
  checklstring-pushlstring = λ s. refl;
  is_negative-pos = λ n. refl;
  is_negative-negsuc = λ n. refl;
  to_inttype-of_inttype = λ z i. refl;
  of_uinttype-pos = λ n. refl;
  to_uinttype-of_uinttype = λ n l. omega arith;
  length-float_bytes = λ n. refl;
  length-double_bytes = λ n. refl;
}

-- ">hi4B!4i", in bytes.
abbrev mixed_format : List ℕ
mixed_format = b'>' ∷ b'h' ∷ b'i' ∷ b'4' ∷ b'!' ∷ b'4' ∷ b'B' ∷ b'i' ∷ []

abbrev mixed_args : List LuaValue
mixed_args = number (negsuc 1) ∷ number (pos 258) ∷ number (pos 7) ∷ number (pos 1) ∷ []

abbrev mixed_bytes : List ℕ
mixed_bytes = 255 ∷ 254 ∷ 0 ∷ 0 ∷ 1 ∷ 2 ∷ 7 ∷ 0 ∷ 0 ∷ 0 ∷ 0 ∷ 1 ∷ []

pack_run : b_pack whole mixed_format mixed_args ≡ ok mixed_bytes
unfolding b_pack kind controloptions putinteger
pack_run = refl

size_run : b_size mixed_format ≡ ok (pos 12)
unfolding b_size kind
size_run = refl

unpack_run :
    b_unpack whole mixed_format mixed_bytes (pos 1)
    ≡ ok (
        number (negsuc 1)
        ∷ number (pos 258)
        ∷ number (pos 7)
        ∷ number (pos 1)
        ∷ number (pos 13)
        ∷ [])
unfolding b_unpack kind controloptions
unpack_run = refl

-- The error of a short string names the argument behind it, 3 for the only one.
short_string_run :
    b_pack whole (b'c' ∷ b'4' ∷ []) (string (1 ∷ 2 ∷ []) ∷ []) ≡ err (argerror 3 "string too short")
unfolding b_pack kind
short_string_run = refl

-- An option letter that no function knows has a size, but cannot be packed.
unknown_letter_run :
    (b_size (b'z' ∷ []) ≡ ok (pos 0))
    × (b_pack whole (b'z' ∷ []) [] ≡ err (argerror 1 "invalid format option '%c'"))
unfolding b_size b_pack kind controloptions
unknown_letter_run = (refl, refl)

-- A negative integer of eight bytes is packed with zeros for its upper half.
long_integer_run :
    b_pack whole (b'i' ∷ b'8' ∷ []) (number (negsuc 0) ∷ [])
    ≡ ok (255 ∷ 255 ∷ 255 ∷ 255 ∷ 0 ∷ 0 ∷ 0 ∷ 0 ∷ [])
unfolding b_pack kind putinteger
long_integer_run = refl

swap_run :
    correctbytes (1 ∷ 2 ∷ 3 ∷ 4 ∷ 5 ∷ 6 ∷ 7 ∷ 8 ∷ []) 8 false ≡ 8 ∷ 7 ∷ 6 ∷ 5 ∷ 4 ∷ 3 ∷ 2 ∷ 1 ∷ []
unfolding correctbytes
swap_run = refl

getinteger-putinteger_example :
    getinteger whole (putinteger false (to_word whole (negsuc 299)) 2) false true 2
    ≡ ok (negsuc 299)
getinteger-putinteger_example =
    getinteger-putinteger whole whole-Laws false 2 (negsuc 299) (omega arith) (omega arith)
      (omega arith)

b_size-b_pack_example : pos 12 ≡ to_signed (12 % 2 ^ 32)
b_size-b_pack_example =
    b_size-b_pack whole whole-Laws mixed_format mixed_args (pos 12) mixed_bytes size_run pack_run

controloptions_run :
    controloptions b'!' (b'1' ∷ b'6' ∷ []) defaultoptions
    ≡ ok (record { little = true; align = 16 }, [])
unfolding controloptions
controloptions_run = refl

controloptions-IsPower_example : IsPower 16
controloptions-IsPower_example =
    controloptions-IsPower b'!' (b'1' ∷ b'6' ∷ []) defaultoptions
      (record { little = true; align = 16 }, []) (0, refl) controloptions_run

loops_end_example :
    (b_pack whole mixed_format mixed_args ≢ no_fuel)
    × (b_size mixed_format ≢ no_fuel)
    × (b_unpack whole mixed_format mixed_bytes (pos 1) ≢ no_fuel)
loops_end_example = loops_end whole mixed_format mixed_bytes mixed_args (pos 1)

b_unpack_before_example : b_unpack whole (b'B' ∷ []) mixed_bytes (pos 0) ≡ fault
b_unpack_before_example = b_unpack_before whole mixed_bytes (omega arith)

IsSimple-run : All IsSimple (b'>' ∷ b'h' ∷ b's' ∷ [])
unfolding kind
IsSimple-run = (
  (λ q. cc, λ q. cc, omega arith),
  ((λ q. cc, λ q. cc, omega arith), ((λ q. cc, λ q. cc, omega arith), tt)),
)

b_unpack_safe_example : b_unpack whole (b'>' ∷ b'h' ∷ b's' ∷ []) mixed_bytes (pos 9) ≢ fault
b_unpack_safe_example =
    b_unpack_safe whole (b'>' ∷ b'h' ∷ b's' ∷ []) mixed_bytes 9 IsSimple-run (omega arith)
      (omega arith) (omega arith)

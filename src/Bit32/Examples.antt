-- ===== src/Bit32/Examples.antt =====
-- Lua/src/lbitlib.cpp: runs of the library, and its theorems at concrete words.
use addons_terraria_tshock.Common.{ℕ, ◌%◌, ◌/◌, ◌^◌, ◌<◌, ◌≡◌, refl, some, List, [], ◌∷◌, arith}
use addons_terraria_tshock.Common.Bits.{bit}
use addons_terraria_tshock.Common.Int.{pos, negsuc}
use addons_terraria_tshock.Common.Outcome.{ok, err, error, ◌>>=◌}
use addons_terraria_tshock.Bit32.{
  b_and, b_or, b_xor, b_lshift, b_rshift, b_arshift, b_rrot, b_extract, b_replace,
}
use addons_terraria_tshock.Bit32.Logic.{every, some_of, parity, logic_digits}
use addons_terraria_tshock.Bit32.Shifts.{shifted, neg, shift_lem}
use addons_terraria_tshock.Bit32.Fields.{replaced, extract_lem, replace_lem, extract-replace}

shift_runs : (b_arshift 0x8000_0000 (pos 4) ≡ ok 0xf800_0000) × (b_rrot 1 (pos 1) ≡ ok 0x8000_0000)
unfolding b_arshift b_rrot
shift_runs = (refl, refl)

replace_run : b_replace 0xffff_ffff 0x12 (pos 8) (some (pos 8)) ≡ ok 0xffff_12ff
unfolding b_replace
replace_run = refl

extract_run :
    b_extract 0xabcd (pos 30) (some (pos 3)) ≡ err (error "trying to access non-existent bits")
unfolding b_extract
extract_run = refl

abbrev masks : List ℕ
masks = 0xff ∷ 0x0f ∷ 0x3c ∷ []

logic_digits_example :
    (bit 2 (b_and masks) ≡ every 2 masks)
    × (bit 2 (b_or masks) ≡ some_of 2 masks)
    × (bit 2 (b_xor masks) ≡ parity 2 masks)
    × (b_and masks < 2 ^ 32)
    × (b_or masks < 2 ^ 32)
    × (b_xor masks < 2 ^ 32)
logic_digits_example = logic_digits masks 2 (omega arith)

shift_lem_example :
    (b_lshift 0x81 (negsuc 3) ≡ ok (shifted 0x81 (negsuc 3)))
    × (b_rshift 0x81 (negsuc 3) ≡ ok (shifted 0x81 (neg (negsuc 3))))
shift_lem_example = shift_lem 0x81 (negsuc 3) (omega arith) (omega arith)

extract_lem_example : b_extract 0xabcd (pos 4) (some (pos 8)) ≡ ok (0xabcd / 2 ^ 4 % 2 ^ 8)
extract_lem_example = extract_lem 0xabcd 4 8 (omega arith)

replace_lem_example :
    (y : ℕ) × (b_replace 0xffff 0 (pos 4) (some (pos 8)) ≡ ok y)
    × (y < 2 ^ 32)
    × (bit 5 y ≡ replaced 0xffff 0 4 8 5)
replace_lem_example =
    replace_lem 0xffff 0 4 8 5 (omega arith) (omega arith) (omega arith) (omega arith)

extract-replace_example :
    (b_replace 0xffff 0x123 (pos 4) (some (pos 8)) >>= λ y. b_extract y (pos 4) (some (pos 8)))
    ≡ ok (0x123 % 2 ^ 8)
extract-replace_example = extract-replace 0xffff 0x123 4 8 (omega arith) (omega arith)

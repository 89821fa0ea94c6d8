-- ===== src/Bit32/Logic.antt =====
-- Lua/src/lbitlib.cpp: band, bor, bxor, bnot and btest, digit by digit.
use addons_terraria_tshock.Common.Words.{allones}
use addons_terraria_tshock.Common.{
  ℕ, ◌+◌, ◌-◌, ◌%◌, ◌^◌, ◌<◌, min, max, bit_and, bit_or, bit_xor, ◌≡◌, ◌↔◌, sym, ap, ◌∙◌, List, [],
  ◌∷◌, arith, false,
}
use addons_terraria_tshock.Common.Bits.{
  bit, bit-zero, bit-lt-two, bit-bit_and, bit-bit_or, bit-bit_xor, bit-complement, bit-ones_below,
  eq_of_bits,
}
use addons_terraria_tshock.Bit32.{
  and_loop, or_loop, xor_loop, b_and, b_or, b_xor, b_not, b_test, trim,
}
use addons_terraria_tshock.Bit32.Words.{trim-lt, trim_word, bit-trim}

-- The conjunction, the disjunction and the parity of digit k of all words of a list.
abbrev pub every : ℕ → List ℕ → ℕ
every k [] = 1
every k (x ∷ xs) = min (bit k x) (every k xs)

abbrev pub some_of : ℕ → List ℕ → ℕ
some_of k [] = 0
some_of k (x ∷ xs) = max (bit k x) (some_of k xs)

abbrev pub parity : ℕ → List ℕ → ℕ
parity k [] = 0
parity k (x ∷ xs) = (bit k x + parity k xs) % 2

bit-and_loop : (k r : ℕ) (xs : List ℕ) → bit k (and_loop r xs) ≡ min (bit k r) (every k xs)
unfolding and_loop
bit-and_loop k r [] = omega (arith, bit-lt-two k r)
bit-and_loop k r (x ∷ xs) = omega (arith, bit-and_loop k (bit_and r x) xs, bit-bit_and k r x)

bit-or_loop : (k r : ℕ) (xs : List ℕ) → bit k (or_loop r xs) ≡ max (bit k r) (some_of k xs)
unfolding or_loop
bit-or_loop k r [] = omega arith
bit-or_loop k r (x ∷ xs) = omega (arith, bit-or_loop k (bit_or r x) xs, bit-bit_or k r x)

bit-xor_loop : (k r : ℕ) (xs : List ℕ) → bit k (xor_loop r xs) ≡ (bit k r + parity k xs) % 2
unfolding xor_loop
bit-xor_loop k r [] = omega (arith, bit-lt-two k r)
bit-xor_loop k r (x ∷ xs) = omega (arith, bit-xor_loop k (bit_xor r x) xs, bit-bit_xor k r x)

every-lt-two : (k : ℕ) (xs : List ℕ) → every k xs < 2
every-lt-two k [] = omega arith
every-lt-two k (x ∷ xs) = omega (arith, bit-lt-two k x)

pub bit-b_and : (k : ℕ) (xs : List ℕ) → k < 32 → bit k (b_and xs) ≡ every k xs
unfolding b_and
bit-b_and k xs h = omega (
  arith,
  bit-trim k (and_loop allones xs) h,
  bit-and_loop k allones xs,
  bit-ones_below 32 k h,
  every-lt-two k xs,
)

parity-lt-two : (k : ℕ) (xs : List ℕ) → parity k xs < 2
parity-lt-two k [] = omega arith
parity-lt-two k (x ∷ xs) = omega arith

-- Each digit below 32 of `band` is the conjunction of that digit of all arguments, of `bor` the
-- disjunction, of `bxor` the parity, and the results are 32-bit words.
pub logic_digits :
    (xs : List ℕ) (k : ℕ)
    → k < 32
    → (bit k (b_and xs) ≡ every k xs)
      × (bit k (b_or xs) ≡ some_of k xs)
      × (bit k (b_xor xs) ≡ parity k xs)
      × (b_and xs < 2 ^ 32)
      × (b_or xs < 2 ^ 32)
      × (b_xor xs < 2 ^ 32)
unfolding b_and b_or b_xor
logic_digits xs k h = (
  bit-b_and k xs h,
  omega (arith, bit-trim k (or_loop 0 xs) h, bit-or_loop k 0 xs, bit-zero k),
  omega (arith, bit-trim k (xor_loop 0 xs) h, bit-xor_loop k 0 xs, bit-zero k, parity-lt-two k xs),
  trim-lt _,
  trim-lt _,
  trim-lt _,
)

-- `bnot` flips each of the 32 digits, and so undoes itself.
pub not_digits :
    (x k : ℕ) → x < 2 ^ 32 → k < 32 → (bit k (b_not x) ≡ 1 - bit k x) × (b_not (b_not x) ≡ x)
unfolding b_not
not_digits x k h l = (
  bit-trim k _ l ∙ bit-complement 32 k x h l,
  omega (
    arith,
    trim_word (allones - x) (omega arith),
    trim_word (allones - trim (allones - x)) (omega arith),
  ),
)

every_zero : (xs : List ℕ) → b_and xs ≡ 0 → (k : ℕ) → k < 32 → every k xs ≡ 0
every_zero xs h k l = sym (bit-b_and k xs l) ∙ ap (bit k) h ∙ bit-zero k

zero_every : (xs : List ℕ) → ((k : ℕ) → k < 32 → every k xs ≡ 0) → b_and xs ≡ 0
unfolding b_and
zero_every xs h =
    eq_of_bits 32 (b_and xs) 0 (trim-lt _) (omega arith)
      (λ k l. bit-b_and k xs l ∙ h k l ∙ sym (bit-zero k))

b_test-false : (xs : List ℕ) → (b_test xs ≡ false) ↔ (b_and xs ≡ 0)
unfolding b_test b_and
b_test-false xs = ground arith

-- `btest` is false exactly when no digit below 32 is set in all arguments.
pub b_test_iff : (xs : List ℕ) → (b_test xs ≡ false) ↔ ((k : ℕ) → k < 32 → every k xs ≡ 0)
b_test_iff xs =
    (λ h. every_zero xs ((b_test-false xs).0 h), λ h. (b_test-false xs).1 (zero_every xs h))

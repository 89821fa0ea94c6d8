-- ===== src/Common/Bits.antt =====
-- The bit operations at variables: one equation for the lowest digit, the k-th digit of a
-- conjunction, a disjunction and an exclusive or, and the masks of k ones.
use Prim.Native.Nat.{
  ℕ, zero, suc, ◌+◌, ◌-◌, ◌*◌, ◌/◌, ◌%◌, ◌^◌, ◌≤◌, ◌<◌, min, max, digits, bitwise, differ,
}
use Prim.Native.Nat.{bit_and, bit_or, bit_xor}
use Prim.Native.Nat.{bit_and-bitwise, bit_or-bitwise, bit_xor-bitwise}
use mathlib.Core.Bool.{Bool, true, ◌&&◌}
use mathlib.Core.Path.{◌≡◌, refl, sym, ap, ap₂, ◌∙◌}
use native.Mathlib.Nat.{pow-suc, one-le-pow, le_refl, div-div-eq-div-mul, mod-add-div', pow-succ'}
use native.Mathlib.Omega.{arith}

-- The k-th binary digit of x.
abbrev pub bit : ℕ → ℕ → ℕ
bit zero x = x % 2
bit (suc k) x = bit k (x / 2)

module _ (last : ℕ → ℕ) (op : ℕ → ℕ → ℕ) where
  digits_fuel :
      (fuel more x y : ℕ) → x ≤ fuel → x ≤ more → digits last op fuel x y ≡ digits last op more x y
  digits_fuel zero zero x y g h = refl
  digits_fuel (suc fuel) zero zero y g h = refl
  digits_fuel (suc fuel) zero (suc x) y g h = absurd (omega arith)
  digits_fuel zero (suc more) zero y g h = refl
  digits_fuel zero (suc more) (suc x) y g h = absurd (omega arith)
  digits_fuel (suc fuel) (suc more) zero y g h = refl
  digits_fuel (suc fuel) (suc more) (suc x) y g h =
      rw (digits_fuel fuel more (suc x / 2) (y / 2) (omega arith) (omega arith))

  bitwise_next :
      (x y : ℕ)
      → bitwise last op (suc x) y ≡ bitwise last op (suc x / 2) (y / 2) * 2 + op (suc x % 2) (y % 2)
  bitwise_next x y =
      omega (arith, digits_fuel x (suc x / 2) (suc x / 2) (y / 2) (omega arith) (le_refl _))

pub bit_and_step : (x y : ℕ) → bit_and x y ≡ min (x % 2) (y % 2) + 2 * bit_and (x / 2) (y / 2)
bit_and_step zero y = simp bit_and-bitwise (omega arith)
bit_and_step (suc x) y = simp bit_and-bitwise (omega (arith, bitwise_next (λ _. 0) min x y))

pub bit_or_step : (x y : ℕ) → bit_or x y ≡ max (x % 2) (y % 2) + 2 * bit_or (x / 2) (y / 2)
bit_or_step zero y = simp bit_or-bitwise (omega arith)
bit_or_step (suc x) y = simp bit_or-bitwise (omega (arith, bitwise_next (λ t. t) max x y))

-- The library's digit function of `bit_xor`.
differ_lem : (a b : ℕ) → a < 2 → b < 2 → differ a b ≡ (a + b) % 2
differ_lem zero b p q = omega arith
differ_lem (suc zero) zero p q = refl
differ_lem (suc zero) (suc zero) p q = refl
differ_lem (suc zero) (suc (suc b)) p q = absurd (omega arith)
differ_lem (suc (suc a)) b p q = absurd (omega arith)

pub bit_xor_step : (a b : ℕ) → bit_xor a b ≡ bit_xor (a / 2) (b / 2) * 2 + (a % 2 + b % 2) % 2
bit_xor_step zero b = simp bit_xor-bitwise (omega arith)
bit_xor_step (suc a) b =
    simp bit_xor-bitwise
      (omega (arith, bitwise_next (λ x. x) differ a b, differ_lem (suc a % 2) (b % 2)))

-- Digit k of a conjunction, a disjunction and an exclusive or.
pub bit-bit_and : (k a b : ℕ) → bit k (bit_and a b) ≡ min (bit k a) (bit k b)
bit-bit_and zero a b = omega (arith, bit_and_step a b)
bit-bit_and (suc k) a b =
    ap (bit k) (omega (arith, bit_and_step a b)) ∙ bit-bit_and k (a / 2) (b / 2)

pub bit-bit_or : (k a b : ℕ) → bit k (bit_or a b) ≡ max (bit k a) (bit k b)
bit-bit_or zero a b = omega (arith, bit_or_step a b)
bit-bit_or (suc k) a b = ap (bit k) (omega (arith, bit_or_step a b)) ∙ bit-bit_or k (a / 2) (b / 2)

pub bit-bit_xor : (k a b : ℕ) → bit k (bit_xor a b) ≡ (bit k a + bit k b) % 2
bit-bit_xor zero a b = omega (arith, bit_xor_step a b)
bit-bit_xor (suc k) a b =
    ap (bit k) (omega (arith, bit_xor_step a b)) ∙ bit-bit_xor k (a / 2) (b / 2)

pub bit-lt-two : (k a : ℕ) → bit k a < 2
bit-lt-two zero a = omega arith
bit-lt-two (suc k) a = bit-lt-two k (a / 2)

pub zero-bit_and : (b : ℕ) → bit_and 0 b ≡ 0
zero-bit_and b = bit_and-bitwise 0 b

-- Nothing is left of a conjunction with 0, and a disjunction with 0 changes nothing.
bit_and-zero_below : (n a : ℕ) → a ≤ n → bit_and a 0 ≡ 0
bit_and-zero_below n zero h = refl
bit_and-zero_below zero (suc a) h = absurd (omega arith)
bit_and-zero_below (suc n) (suc a) h =
    omega (arith, bit_and_step (suc a) 0, bit_and-zero_below n (suc a / 2) (omega arith))

pub bit_and-zero : (a : ℕ) → bit_and a 0 ≡ 0
bit_and-zero a = bit_and-zero_below a a (le_refl a)

bit_or-zero_below : (n a : ℕ) → a ≤ n → bit_or a 0 ≡ a
bit_or-zero_below n zero h = refl
bit_or-zero_below zero (suc a) h = absurd (omega arith)
bit_or-zero_below (suc n) (suc a) h =
    omega (arith, bit_or_step (suc a) 0, bit_or-zero_below n (suc a / 2) (omega arith))

double_shift : (q k : ℕ) → q * 2 ^ suc k ≡ 2 * (q * 2 ^ k)
double_shift q k = omega (arith, ap (λ (t : ℕ). q * t) (pow-suc 2 k))

-- The quotient by 2 ^ suc n is that of the half by 2 ^ n.
div_double : (a n : ℕ) → a / 2 ^ suc n ≡ a / 2 / 2 ^ n
div_double a n = ap (◌/◌ a) (pow-succ' 2 n) ∙ sym (div-div-eq-div-mul a 2 (2 ^ n))

-- The remainder by 2 ^ suc n, by the half of the number and its lowest digit.
mod_halves : (n a : ℕ) → (a % 2 ^ suc n / 2 ≡ a / 2 % 2 ^ n) × (a % 2 ^ suc n % 2 ≡ a % 2)
mod_halves n a =
    let whole = div_double a n in
    let q = a / 2 / 2 ^ n in
    omega (
      arith,
      ap (λ (t : ℕ). t * 2 ^ suc n) whole,
      double_shift q n,
      mod-add-div' a (2 ^ suc n),
      mod-add-div' (a / 2) (2 ^ n),
    )

mask_half : (k : ℕ) → (2 ^ suc k - 1) / 2 ≡ 2 ^ k - 1
mask_half k = omega (arith, pow-suc 2 k, one-le-pow k 2 (omega arith))

pub bit_or-lt : (n a b : ℕ) → a < 2 ^ n → b < 2 ^ n → bit_or a b < 2 ^ n
bit_or-lt zero zero zero h l = omega (arith, bit_or_step 0 0)
bit_or-lt zero (suc a) b h l = absurd (omega arith)
bit_or-lt zero zero (suc b) h l = absurd (omega arith)
bit_or-lt (suc n) a b h l = omega (
  arith,
  pow-suc 2 n,
  bit_or_step a b,
  bit_or-lt n (a / 2) (b / 2) (omega (arith, pow-suc 2 n)) (omega (arith, pow-suc 2 n)),
)

pub bit_and-lt : (n a b : ℕ) → a < 2 ^ n → bit_and a b < 2 ^ n
bit_and-lt zero zero b h = omega (arith, zero-bit_and b)
bit_and-lt zero (suc a) b h = absurd (omega arith)
bit_and-lt (suc n) a b h = omega (
  arith,
  pow-suc 2 n,
  bit_and_step a b,
  bit_and-lt n (a / 2) (b / 2) (omega (arith, pow-suc 2 n)),
)

-- A mask of k ones keeps the remainder by 2 ^ k.
pub bit_and-mask : (k a : ℕ) → bit_and a (2 ^ k - 1) ≡ a % 2 ^ k
bit_and-mask zero a = omega (arith, bit_and-zero a)
bit_and-mask (suc k) a = ground (
  arith,
  bit_and_step a (2 ^ suc k - 1),
  pow-suc 2 k,
  one-le-pow k 2 (omega arith),
  mod_halves k a,
  bit_and-mask k (a / 2),
  mask_half k,
)

-- A conjunction with one digit keeps that digit.
pub bit_and-pow : (n a : ℕ) → bit_and a (2 ^ n) ≡ bit n a * 2 ^ n
bit_and-pow zero a = omega (arith, bit_and_step a 1, bit_and-zero (a / 2))
bit_and-pow (suc n) a = ground (
  arith,
  bit_and_step a (2 ^ suc n),
  pow-suc 2 n,
  double_shift (bit n (a / 2)) n,
  bit_and-pow n (a / 2),
)

-- A disjunction of a multiple of 2 ^ k and a number below it is their sum.
pub bit_or_add : (k q r : ℕ) → r < 2 ^ k → bit_or (q * 2 ^ k) r ≡ q * 2 ^ k + r
bit_or_add zero q r h = ground (arith, bit_or-zero_below q q (le_refl q))
bit_or_add (suc k) q r h = ground (
  arith,
  bit_or_step (q * 2 ^ suc k) r,
  double_shift q k,
  bit_or_add k q (r / 2) (omega (arith, pow-suc 2 k)),
)

-- A number below 2 ^ n whose digits below n are all those of another is that number.
pub eq_of_bits : (n a b : ℕ) → a < 2 ^ n → b < 2 ^ n → ((k : ℕ) → k < n → bit k a ≡ bit k b) → a ≡ b
eq_of_bits zero a b p q h = omega arith
eq_of_bits (suc n) a b p q h = omega (
  arith,
  h 0 (omega arith),
  eq_of_bits n (a / 2) (b / 2) (omega (arith, pow-suc 2 n)) (omega (arith, pow-suc 2 n))
      (λ k l. h (suc k) (omega arith)),
)

pub bit-zero : (k : ℕ) → bit k 0 ≡ 0
bit-zero zero = refl
bit-zero (suc k) = bit-zero k

pub bit_at : (k l x : ℕ) → k ≡ l → bit k x ≡ bit l x
bit_at k l x p = ap (λ (m : ℕ). bit m x) p

bit_cong : (k l a b : ℕ) → k ≡ l → a ≡ b → bit k a ≡ bit l b
bit_cong k l a b p q = ap₂ bit p q

-- Dividing by 2 ^ j drops the j lowest digits; multiplying by it puts j zeros below.
pub bit-div : (k j a : ℕ) → bit k (a / 2 ^ j) ≡ bit (k + j) a
bit-div k zero a = bit_cong k (k + 0) (a / 1) a (omega arith) (omega arith)
bit-div k (suc j) a =
    ap (bit k) (ap (◌/◌ a) (pow-suc 2 j) ∙ sym (div-div-eq-div-mul a (2 ^ j) 2))
    ∙ bit-div (suc k) j a
    ∙ bit_cong (suc k + j) (k + suc j) a a (omega arith) refl

pub bit-mul_below : (j k a : ℕ) → k < j → bit k (a * 2 ^ j) ≡ 0
bit-mul_below zero k a h = absurd (omega arith)
bit-mul_below (suc j) zero a h = omega (arith, double_shift a j)
bit-mul_below (suc j) (suc k) a h =
    ap (bit k) (omega (arith, double_shift a j)) ∙ bit-mul_below j k a (omega arith)

pub bit-mul_above : (j k a : ℕ) → bit (j + k) (a * 2 ^ j) ≡ bit k a
bit-mul_above zero k a = bit_cong (0 + k) k (a * 1) a (omega arith) (omega arith)
bit-mul_above (suc j) k a =
    bit_cong (suc j + k) (suc (j + k)) _ _ (omega arith) refl
    ∙ bit_cong (j + k) (j + k) (a * 2 ^ suc j / 2) (a * 2 ^ j) refl
        (omega (arith, double_shift a j))
    ∙ bit-mul_above j k a

-- The remainder by 2 ^ n has the n lowest digits, and no others.
pub bit-mod_below : (n k a : ℕ) → k < n → bit k (a % 2 ^ n) ≡ bit k a
bit-mod_below zero k a h = absurd (omega arith)
bit-mod_below (suc n) zero a h = grind (arith, pow-suc 2 n, mod_halves n a)
bit-mod_below (suc n) (suc k) a h =
    ap (bit k) (mod_halves n a).0 ∙ bit-mod_below n k (a / 2) (omega arith)

pub bit_of_lt : (n k a : ℕ) → a < 2 ^ n → n ≤ k → bit k a ≡ 0
bit_of_lt zero k a p q = ap (bit k) (omega arith) ∙ bit-zero k
bit_of_lt (suc n) zero a p q = absurd (omega arith)
bit_of_lt (suc n) (suc k) a p q = bit_of_lt n k (a / 2) (omega (arith, pow-suc 2 n)) (omega arith)

-- The digits of the complement in n bits, and of a mask of n ones.
pub bit-complement : (n k x : ℕ) → x < 2 ^ n → k < n → bit k (2 ^ n - 1 - x) ≡ 1 - bit k x
bit-complement zero k x p q = absurd (omega arith)
bit-complement (suc n) zero x p q = omega (arith, pow-suc 2 n, one-le-pow n 2 (omega arith))
bit-complement (suc n) (suc k) x p q =
    bit_cong k k ((2 ^ suc n - 1 - x) / 2) (2 ^ n - 1 - x / 2) refl
      (omega (arith, pow-suc 2 n, one-le-pow n 2 (omega arith)))
    ∙ bit-complement n k (x / 2) (omega (arith, pow-suc 2 n)) (omega arith)

pub bit-ones_below : (n k : ℕ) → k < n → bit k (2 ^ n - 1) ≡ 1
bit-ones_below n k h =
    bit_cong k k (2 ^ n - 1) (2 ^ n - 1 - 0) refl (omega arith)
    ∙ bit-complement n k 0 (one-le-pow n 2 (omega arith)) h
    ∙ ap (λ (t : ℕ). 1 - t) (bit-zero k)

pub bit-ones_above : (n k : ℕ) → n ≤ k → bit k (2 ^ n - 1) ≡ 0
bit-ones_above n k h = bit_of_lt n k (2 ^ n - 1) (omega (arith, one-le-pow n 2 (omega arith))) h

-- Every value below a bound passes a test that was computed for each.
unfoldable pub all_below : ℕ → (ℕ → Bool) → Bool
all_below zero p = true
all_below (suc n) p = p n && all_below n p

pub all_below_sound : (n : ℕ) (p : ℕ → Bool) (x : ℕ) → all_below n p ≡ true → x < n → p x ≡ true
unfolding all_below
all_below_sound zero p x h l = absurd (omega arith)
all_below_sound (suc n) p x h l = ground (arith, all_below_sound n p x)

same_and : (q r m : ℕ) → r < 1 → bit_and (q * 1 + r) (m * 1) ≡ bit_and q m
same_and q r m h =
    ap₂ bit_and {x = q * 1 + r} {y = q} {u = m * 1} {v = m} (omega arith) (omega arith)

same_or : (q r m : ℕ) → r < 1 → bit_or (q * 1 + r) (m * 1) ≡ bit_or q m
same_or q r m h = ap₂ bit_or {x = q * 1 + r} {y = q} {u = m * 1} {v = m} (omega arith) (omega arith)

-- A conjunction and a disjunction with a mask that has j zeros at its low end.
pub bit_and_high :
    (j q r m : ℕ) → r < 2 ^ j → bit_and (q * 2 ^ j + r) (m * 2 ^ j) ≡ bit_and q m * 2 ^ j
bit_and_high zero q r m h = ground (arith, same_and q r m)
bit_and_high (suc j) q r m h = ground (
  arith,
  bit_and_step (q * 2 ^ suc j + r) (m * 2 ^ suc j),
  double_shift q j,
  double_shift m j,
  double_shift (bit_and q m) j,
  pow-suc 2 j,
  bit_and_high j q (r / 2) m,
)

pub bit_or_high :
    (j q r m : ℕ) → r < 2 ^ j → bit_or (q * 2 ^ j + r) (m * 2 ^ j) ≡ bit_or q m * 2 ^ j + r
bit_or_high zero q r m h = ground (arith, same_or q r m)
bit_or_high (suc j) q r m h = ground (
  arith,
  bit_or_step (q * 2 ^ suc j + r) (m * 2 ^ suc j),
  double_shift q j,
  double_shift m j,
  double_shift (bit_or q m) j,
  pow-suc 2 j,
  bit_or_high j q (r / 2) m,
)

-- ===== src/Common/Memory.antt =====
-- The bytes of a number in memory, the lowest first.
use Prim.Native.Nat.{ℕ, zero, suc, ◌+◌, ◌*◌, ◌/◌, ◌%◌, ◌^◌, ◌<◌}
use mathlib.Core.Path.{◌≡◌, refl, ap, ap₂, ◌∙◌}
use mathlib.Core.List.{List, [], ◌∷◌, ◌++◌}
use native.Mathlib.Omega.{arith}
use addons_terraria_tshock.Common.Lists.{
  length, take, drop, All, length-append, take-append_left, drop-append_left,
}

abbrev pub to_bytes : ℕ → ℕ → List ℕ
to_bytes zero x = []
to_bytes (suc n) x = x % 2 ^ 8 ∷ to_bytes n (x / 2 ^ 8)

abbrev pub from_bytes : List ℕ → ℕ
from_bytes [] = 0
from_bytes (b ∷ bs) = b + 2 ^ 8 * from_bytes bs

-- An array of n numbers of `size` bytes each.
abbrev pub from_array : ℕ → ℕ → List ℕ → List ℕ
from_array size zero bs = []
from_array size (suc n) bs = from_bytes (take size bs) ∷ from_array size n (drop size bs)

abbrev pub to_array : ℕ → List ℕ → List ℕ
to_array size [] = []
to_array size (x ∷ xs) = to_bytes size x ++ to_array size xs

pub length-to_bytes : (n x : ℕ) → length (to_bytes n x) ≡ n
length-to_bytes zero x = refl
length-to_bytes (suc n) x = ap suc (length-to_bytes n (x / 2 ^ 8))

-- The numbers that fit n bytes.
abbrev capacity : ℕ → ℕ
capacity zero = 1
capacity (suc n) = 2 ^ 8 * capacity n

pub from_bytes-to_bytes : (n x : ℕ) → x < capacity n → from_bytes (to_bytes n x) ≡ x
from_bytes-to_bytes zero x h = omega arith
from_bytes-to_bytes (suc n) x h = omega (arith, from_bytes-to_bytes n (x / 2 ^ 8) (omega arith))

pub from_array-to_array :
    (n : ℕ) (xs : List ℕ)
    → All (λ (x : ℕ). x < capacity n) xs
    → from_array n (length xs) (to_array n xs) ≡ xs
from_array-to_array n [] h = refl
from_array-to_array n (x ∷ xs) (p, ps) =
    ap₂ ◌∷◌
      (ap from_bytes (take-append_left n (to_bytes n x) (to_array n xs) (length-to_bytes n x))
        ∙ from_bytes-to_bytes n x p)
      (ap (λ (t : List ℕ). from_array n (length xs) t)
          (drop-append_left n (to_bytes n x) (to_array n xs) (length-to_bytes n x))
        ∙ from_array-to_array n xs ps)

pub length-to_array : (n : ℕ) (xs : List ℕ) → length (to_array n xs) ≡ length xs * n
length-to_array n [] = omega arith
length-to_array n (x ∷ xs) =
    length-append (to_bytes n x) (to_array n xs)
    ∙ ap₂ ◌+◌ (length-to_bytes n x) (length-to_array n xs)
    ∙ step (length xs)
  where
    step : (k : ℕ) → n + k * n ≡ suc k * n
    step k = omega arith

-- ===== src/Luasql/Mysql/Message.antt =====
-- Lua/include/luasql/ls_mysql.h: the buffer in which `env_connect` keeps the message of a connection
-- that fails. A byte of a buffer is `none` until it is set. A string of C is the list of its bytes
-- before the 0 that ends it.
use addons_terraria_tshock.Common.{
  ℕ, zero, suc, ◌≤◌, ◌<◌, Option, none, some, List, [], ◌∷◌, length, replicate, All, ◌≡◌, refl,
  arith,
}
use mathlib.Core.Option

abbrev pub Buffer : Type 0
Buffer = List (Option ℕ)

-- `char error_msg[100];`
abbrev pub error_msg : Buffer
error_msg = replicate 100 none

-- `strncpy(buffer, m, n)` sets n bytes, to those of m and zeros behind them, which must be in the buffer.
unfoldable pub strncpy : Buffer → List ℕ → ℕ → Option Buffer
strncpy buffer m zero = some buffer
strncpy [] m (suc n) = none
strncpy (b ∷ buffer) [] (suc n) = Option.map (λ (r : Buffer). some 0 ∷ r) (strncpy buffer [] n)
strncpy (b ∷ buffer) (c ∷ m) (suc n) = Option.map (λ (r : Buffer). some c ∷ r) (strncpy buffer m n)

-- The string that a buffer holds, up to its first 0: no byte before that may be unset, or behind the
-- buffer.
unfoldable pub read_string : Buffer → Option (List ℕ)
read_string [] = none
read_string (none ∷ buffer) = none
read_string (some zero ∷ buffer) = some []
read_string (some (suc c) ∷ buffer) = Option.map (λ (r : List ℕ). suc c ∷ r) (read_string buffer)

strncpy_zeros :
    (buffer : Buffer) (n : ℕ) → n ≤ length buffer → (b : Buffer) × (strncpy buffer [] n ≡ some b)
unfolding strncpy
strncpy_zeros buffer zero h = (buffer, refl)
strncpy_zeros [] (suc n) h = absurd (omega (arith, h))
strncpy_zeros (x ∷ buffer) (suc n) h =
    let (b, e) = strncpy_zeros buffer n (omega (arith, h)) in (some 0 ∷ b, rw e refl)

-- A copy that is shorter than the bytes that are set is ended by a 0.
pub strncpy_short :
    (buffer : Buffer) (m : List ℕ) (n : ℕ)
    → length m < n
    → n ≤ length buffer
    → (b : Buffer) × (t : List ℕ) × (strncpy buffer m n ≡ some b) × (read_string b ≡ some t)
unfolding strncpy read_string
strncpy_short buffer m zero h l = absurd (omega (arith, h))
strncpy_short [] m (suc n) h l = absurd (omega (arith, l))
strncpy_short (x ∷ buffer) [] (suc n) h l =
    let (b, e) = strncpy_zeros buffer n (omega (arith, l)) in (some 0 ∷ b, [], rw e refl, refl)
strncpy_short (x ∷ buffer) (zero ∷ m) (suc n) h l =
    let (b, t, e, f) = strncpy_short buffer m n (omega (arith, h)) (omega (arith, l)) in
    (some 0 ∷ b, [], rw e refl, refl)
strncpy_short (x ∷ buffer) (suc c ∷ m) (suc n) h l =
    let (b, t, e, f) = strncpy_short buffer m n (omega (arith, h)) (omega (arith, l)) in
    (some (suc c) ∷ b, suc c ∷ t, rw e refl, rw f refl)

-- If no byte of it is 0, it is the string.
pub strncpy_whole :
    (buffer : Buffer) (m : List ℕ) (n : ℕ)
    → All (λ c. 1 ≤ c) m
    → length m < n
    → n ≤ length buffer
    → (b : Buffer) × (strncpy buffer m n ≡ some b) × (read_string b ≡ some m)
unfolding strncpy read_string
strncpy_whole buffer m zero p h l = absurd (omega (arith, h))
strncpy_whole [] m (suc n) p h l = absurd (omega (arith, l))
strncpy_whole (x ∷ buffer) [] (suc n) p h l =
    let (b, e) = strncpy_zeros buffer n (omega (arith, l)) in (some 0 ∷ b, rw e refl, refl)
strncpy_whole (x ∷ buffer) (zero ∷ m) (suc n) (p, q) h l = absurd (omega (arith, p))
strncpy_whole (x ∷ buffer) (suc c ∷ m) (suc n) (p, q) h l =
    let (b, e, f) = strncpy_whole buffer m n q (omega (arith, h)) (omega (arith, l)) in
    (some (suc c) ∷ b, rw e refl, rw f refl)

read-unset : (k : ℕ) → read_string (replicate k none) ≡ none
unfolding read_string
read-unset zero = refl
read-unset (suc k) = refl

-- A string without 0 of n bytes or more fills all that are set, and reading goes on behind them.
pub strncpy_long :
    (k : ℕ) (m : List ℕ) (n : ℕ)
    → All (λ c. 1 ≤ c) m
    → n ≤ length m
    → n ≤ k
    → (b : Buffer) × (strncpy (replicate k none) m n ≡ some b) × (read_string b ≡ none)
unfolding strncpy read_string
strncpy_long k m zero p h l = (replicate k none, refl, read-unset k)
strncpy_long zero m (suc n) p h l = absurd (omega (arith, l))
strncpy_long (suc k) [] (suc n) p h l = absurd (omega (arith, h))
strncpy_long (suc k) (zero ∷ m) (suc n) (p, q) h l = absurd (omega (arith, p))
strncpy_long (suc k) (suc c ∷ m) (suc n) (p, q) h l =
    let (b, e, f) = strncpy_long k m n q (omega (arith, h)) (omega (arith, l)) in
    (some (suc c) ∷ b, rw e refl, rw f refl)

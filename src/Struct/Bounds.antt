-- ===== src/Struct/Bounds.antt =====
-- Lua/include/lstruct/struct.h: where `b_unpack` reads.
use addons_terraria_tshock.Common.{
  ℕ, zero, suc, ◌+◌, ◌-◌, ◌^◌, ◌%◌, ◌≤◌, ◌<◌, ◌==◌, leb, List, [], ◌∷◌, length, All, drop,
  length-drop, ◌≡◌, ◌≢◌, refl, Bool-cases, Option-cases, leb→le, inl, inr, some, arith, bit_and,
  le→leb, gt→leb,
}
use addons_terraria_tshock.Common.Bits.{bit_and-zero}
use addons_terraria_tshock.Common.Int.{pos}
use addons_terraria_tshock.Common.Outcome.{Outcome, ok, fault, ◌>>=◌, ◌>>◌, argcheck, Outcome-cases}
use addons_terraria_tshock.Struct.Format.{
  Kind, kind, optsize, Header, to_boundary, gettoalign, controloptions, size_add, cstring,
  defaultoptions,
}
use addons_terraria_tshock.Struct.Format.{byte, short, long, size_type, int, float, double, pad}
use addons_terraria_tshock.Struct.Format.{chars, zstring, control}
use addons_terraria_tshock.Struct.Host.{Host}
use addons_terraria_tshock.Struct.Integer.{sign_extend}
use addons_terraria_tshock.Struct.Unpack.{
  Unpacker, read, getinteger, unpack_integer, unpack_float, unpack_zstring, unpack_option,
  unpack_step, unpack_loop, b_unpack, find_zero,
}

to_boundary_one : (len : ℕ) → to_boundary len 1 ≡ 0
unfolding to_boundary
to_boundary_one len = bit_and-zero (1 - bit_and len 0)

-- With the default alignment nothing is padded.
gettoalign_one :
    (len : ℕ) (h : Header) (k : Kind) (size : ℕ) → h.align ≡ 1 → gettoalign len h k size ≡ 0
unfolding gettoalign
gettoalign_one len h k size a = ground (arith, to_boundary_one len)

-- From position 0 the option `B` passes the check of the data's length, since the sum of position and
-- size wraps to 0, and reads before the data string. It is so for all data of less than 2 ^ 31 bytes.
pub b_unpack_before :
    (h : Host) (bytes : List ℕ)
    → length bytes < 2 ^ 31
    → b_unpack h (b'B' ∷ []) bytes (pos 0) ≡ fault
unfolding b_unpack kind
b_unpack_before h bytes l =
    rw (le→leb 0 (length bytes) (omega arith), gt→leb (2 ^ 32) (length bytes) (omega arith))

-- An option that is none of `c`, `i`, `I` and `!`.
abbrev pub IsSimple : ℕ → Type 0
IsSimple c = (kind c ≢ chars) × (kind c ≢ int) × (c ≢ b'!')

-- What the readers need to know of a size.
abbrev Sized : Kind → ℕ → Type 0
Sized byte size = (1 ≤ size) × (size ≤ 4)
Sized short size = (1 ≤ size) × (size ≤ 4)
Sized long size = (1 ≤ size) × (size ≤ 4)
Sized size_type size = (1 ≤ size) × (size ≤ 4)
Sized zstring size = size ≡ 0
Sized control size = size ≡ 0
Sized _ size = Unit

-- The data is short of 2 ^ 31 bytes, and so are the positions.
abbrev IsSmall : {h : Host} → Unpacker h → Type 0
IsSmall u = (u.at < 2 ^ 31) × (u.header.align ≡ 1)

read-ne-fault :
    (bytes : List ℕ) (at size : ℕ) → at + size ≤ length bytes → read bytes at size ≢ fault
unfolding read
read-ne-fault bytes at size l e = ground arith

controloptions_simple :
    (c : ℕ) (fmt : List ℕ) (hd : Header)
    → c ≢ b'!'
    → (controloptions c fmt hd ≢ fault)
      × ((r : Header × List ℕ)
          → controloptions c fmt hd ≡ ok r
          → (r.1 ≡ fmt) × (r.0.align ≡ hd.align))
unfolding controloptions
controloptions_simple c fmt hd n = (λ e. ground arith, λ r e. ground arith)

-- The sizes of the options other than `c` and `i`, and what the rest of the format is.
simple_size :
    (k : Kind) (cs : List ℕ)
    → k ≢ chars
    → k ≢ int
    → (x : ℕ × List ℕ) × (optsize k cs ≡ ok x) × (x.1 ≡ cs) × (x.0 ≤ 8) × Sized k x.0
unfolding optsize
simple_size byte cs a b = ((1, cs), refl, refl, omega arith, omega arith)
simple_size short cs a b = ((2, cs), refl, refl, omega arith, omega arith)
simple_size long cs a b = ((4, cs), refl, refl, omega arith, omega arith)
simple_size size_type cs a b = ((4, cs), refl, refl, omega arith, omega arith)
simple_size int cs a b = absurd (b refl)
simple_size float cs a b = ((4, cs), refl, refl, omega arith, tt)
simple_size double cs a b = ((8, cs), refl, refl, omega arith, tt)
simple_size pad cs a b = ((1, cs), refl, refl, omega arith, tt)
simple_size chars cs a b = absurd (a refl)
simple_size zstring cs a b = ((0, cs), refl, refl, omega arith, refl)
simple_size control cs a b = ((0, cs), refl, refl, omega arith, refl)

-- An item of a fixed size that lies in the data is read without a fault, and the position behind it
-- is in the data.
module _ (h : Host) (bytes : List ℕ) where
  Kept : Unpacker h → List ℕ → ℕ → Outcome (List ℕ × ℕ × Unpacker h) → Type 0
  Kept u fmt size m =
      (m ≢ fault)
      × ((r : List ℕ × ℕ × Unpacker h)
          → m ≡ ok r
          → (r.0 ≡ fmt)
            × (u.at + r.1 ≤ length bytes)
            × (r.2.at ≡ u.at)
            × (r.2.header.align ≡ u.header.align))

  unpack_integer_safe :
      (c : ℕ) (fmt : List ℕ) (size : ℕ) (u : Unpacker h)
      → 1 ≤ size
      → size ≤ 4
      → u.at + size ≤ length bytes
      → Kept u fmt size (unpack_integer h bytes c fmt size u)
  unfolding Kept unpack_integer getinteger sign_extend
  unpack_integer_safe c fmt size u p q l =
      (λ e. ground (arith, read-ne-fault bytes u.at size l), λ r e. ground arith)

  unpack_float_safe :
      (value : List ℕ → h.Number) (fmt : List ℕ) (size : ℕ) (u : Unpacker h)
      → u.at + size ≤ length bytes
      → Kept u fmt size (unpack_float h value bytes fmt size u)
  unfolding Kept unpack_float
  unpack_float_safe value fmt size u l =
      (λ e. ground (arith, read-ne-fault bytes u.at size l), λ r e. ground arith)

  find_zero-lt : (s : List ℕ) (n : ℕ) → find_zero s ≡ some n → n < length s
  unfolding find_zero
  find_zero-lt [] n e = cc
  find_zero-lt (c ∷ cs) n e = elim (Option-cases (find_zero cs)) [
    | inl g ↦ ground (arith, g)
    | inr (m, g) ↦ ground (arith, g, find_zero-lt cs m g)
  ]

  unpack_zstring_safe :
      (fmt : List ℕ) (u : Unpacker h)
      → u.at ≤ length bytes
      → Kept u fmt 0 (unpack_zstring h bytes fmt u)
  unfolding Kept unpack_zstring
  unpack_zstring_safe fmt u l = (
    λ e. ground arith,
    λ r e. elim (Option-cases (find_zero (drop u.at bytes))) [
      | inl g ↦ ground (arith, g)
      | inr (m, g) ↦ ground (arith, g, find_zero-lt (drop u.at bytes) m g, length-drop u.at bytes)
    ],
  )

  option_safe :
      (c : ℕ) (k : Kind) (fmt : List ℕ) (size : ℕ) (u : Unpacker h)
      → k ≢ chars
      → k ≢ int
      → c ≢ b'!'
      → Sized k size
      → u.at + size ≤ length bytes
      → Kept u fmt size (unpack_option h bytes c k fmt size u)
  unfolding unpack_option
  option_safe c byte fmt size u a b n s l = unpack_integer_safe c fmt size u s.0 s.1 l
  option_safe c short fmt size u a b n s l = unpack_integer_safe c fmt size u s.0 s.1 l
  option_safe c long fmt size u a b n s l = unpack_integer_safe c fmt size u s.0 s.1 l
  option_safe c size_type fmt size u a b n s l = unpack_integer_safe c fmt size u s.0 s.1 l
  option_safe c int fmt size u a b n s l = absurd (b refl)
  option_safe c float fmt size u a b n s l = unpack_float_safe h.of_float_bytes fmt size u l
  option_safe c double fmt size u a b n s l = unpack_float_safe h.of_double_bytes fmt size u l
  option_safe c pad fmt size u a b n s l = unfold Kept in (λ e. cc, λ r e. ground arith)
  option_safe c chars fmt size u a b n s l = absurd (a refl)
  option_safe c zstring fmt size u a b n s l =
      unfold Kept in unpack_zstring_safe fmt u (omega arith)
  option_safe c control fmt size u a b n s l =
      let (f, g) = controloptions_simple c fmt u.header n in
      unfold Kept in
      (
        λ e. ground (arith, f),
        λ r e. elim (Outcome-cases (controloptions c fmt u.header)) [
          | inl (x, k) ↦ ground (arith, k, g x k)
          | inr k ↦ grind (arith, k)
        ],
      )

  -- A round behind a known size, where nothing is padded.
  placed : Unpacker h → Unpacker h
  placed u = record u { at = size_add u.at 0 }

  unpack_step_at :
      (c : ℕ) (cs : List ℕ) (u : Unpacker h) (x : ℕ × List ℕ)
      → optsize (kind c) cs ≡ ok x
      → gettoalign u.at u.header (kind c) x.0 ≡ 0
      → unpack_step h bytes c cs u ≡ (
          argcheck (leb (size_add (placed u).at x.0) (length bytes)) 2 "data string too short"
          >> (unpack_option h bytes c (kind c) x.1 x.0 (placed u) >>= λ z.
              ok (z.0, record (z.2) { at = size_add z.2.at z.1 })))
  unfolding unpack_step placed
  unpack_step_at c cs u x e z = rw (e, z)

  -- A round on a simple option, at a small position.
  step_safe :
      (c : ℕ) (cs : List ℕ) (u : Unpacker h)
      → length bytes < 2 ^ 31
      → IsSimple c
      → IsSmall u
      → (unpack_step h bytes c cs u ≢ fault)
        × ((r : List ℕ × Unpacker h) → unpack_step h bytes c cs u ≡ ok r → (r.0 ≡ cs) × IsSmall r.1)
  unfolding Kept placed
  step_safe c cs u l (a, b, n) s =
      let (x, sized, rest, bound, fits) = simple_size (kind c) cs a b in
      let v = placed u in
      let here : v.at ≡ u.at = omega arith in
      rw (unpack_step_at c cs u x sized (gettoalign_one u.at u.header (kind c) x.0 s.1))
        (elim (Bool-cases (leb (size_add v.at x.0) (length bytes))) [
          | inl e ↦
              let inside : v.at + x.0 ≤ length bytes = omega (arith, leb→le _ _ e) in
              let (f, g) = option_safe c (kind c) x.1 x.0 v a b n fits inside in
              rw e (
                λ q. ground (arith, f),
                λ r q. elim (Outcome-cases (unpack_option h bytes c (kind c) x.1 x.0 v)) [
                  | inl (z, k) ↦ ground (arith, k, g z k, rest)
                  | inr k ↦ grind (arith, k)
                ],
              )
          | inr e ↦ rw e (λ q. cc, λ r q. cc)
        ])

  loop_safe :
      (fuel : ℕ) (fmt : List ℕ) (u : Unpacker h)
      → length bytes < 2 ^ 31
      → All IsSimple fmt
      → IsSmall u
      → unpack_loop h fuel bytes fmt u ≢ fault
  unfolding unpack_loop
  loop_safe fuel [] u l a s = cc
  loop_safe zero (c ∷ cs) u l a s = cc
  loop_safe (suc fuel) (c ∷ cs) u l a s =
      let (f, g) = step_safe c cs u l a.0 s in
      elim (Outcome-cases (unpack_step h bytes c cs u)) [
        | inl (r, k) ↦
            let (same, small) = g r k in rw k (loop_safe fuel r.0 r.1 l (rw same a.1) small)
        | inr k ↦ λ e. grind (arith, f, k)
      ]

cstring-All : (fmt : List ℕ) → All IsSimple fmt → All IsSimple (cstring fmt)
unfolding cstring
cstring-All [] a = tt
cstring-All (c ∷ cs) a = elim (Bool-cases (c == 0)) [
  | inl e ↦ rw e tt
  | inr e ↦ rw e (a.0, cstring-All cs a.1)
]

-- On data of less than 2 ^ 31 bytes and from a position between 1 and 2 ^ 31 - 1, a format without
-- the options `c`, `i`, `I` and `!` never makes `b_unpack` read beyond the data or do what C leaves
-- undefined.
pub b_unpack_safe :
    (h : Host) (format bytes : List ℕ) (n : ℕ)
    → All IsSimple format
    → length bytes < 2 ^ 31
    → 1 ≤ n
    → n < 2 ^ 31
    → b_unpack h format bytes (pos n) ≢ fault
unfolding b_unpack
b_unpack_safe h format bytes n a l p q e = ground (
  arith,
  loop_safe h bytes (length (cstring format)) (cstring format) first l (cstring-All format a) small,
)
  where
    first : Unpacker h
    first = record {
      header = defaultoptions;
      at = size_add (n % 2 ^ 32) (2 ^ 32 - 1);
      stack = h.pushlstring bytes ∷ h.pushlstring format ∷ [];
    }

    small : IsSmall first
    small = (omega arith, refl)

-- ===== src/Struct/Ending.antt =====
-- Lua/include/lstruct/struct.h: the loops of `b_pack`, `b_unpack` and `b_size` end.
use addons_terraria_tshock.Common.{
  ℕ, zero, suc, ◌+◌, ◌-◌, ◌*◌, ◌^◌, ◌≤◌, ltb, List, [], ◌∷◌, length, ◌++◌, replicate, ◌≡◌, ◌≢◌,
  Bool-cases, inl, inr, arith,
}
use addons_terraria_tshock.Common.Int.{ℤ, to_unsigned}
use addons_terraria_tshock.Common.Outcome.{
  ok, no_fuel, Ends, Ends-bind, Ends-parts, Outcome-cases, Ends-mono, Ends-error_if,
}
use addons_terraria_tshock.Struct.Format.{
  Kind, kind, optsize, getnum, digits_loop, isdigit, Header, gettoalign, controloptions, size_add,
  cstring, defaultoptions,
}
use addons_terraria_tshock.Struct.Format.{int, float, double, pad}
use addons_terraria_tshock.Struct.Format.{chars, zstring, control}
use addons_terraria_tshock.Struct.Host.{Host}
use addons_terraria_tshock.Struct.Integer.{sign_extend}
use addons_terraria_tshock.Struct.Pack.{
  Packer, next_number, next_string, pack_integer, pack_bytes, pack_string, pack_option, pack_step,
  pack_loop, b_pack,
}
use addons_terraria_tshock.Struct.Size.{size_step, size_loop, b_size}
use addons_terraria_tshock.Struct.Unpack.{
  Unpacker, read, getinteger, top_size, unpack_integer, unpack_float, unpack_chars, unpack_zstring,
  unpack_option, unpack_step, unpack_loop, b_unpack,
}

digits_loop-Ends : (a : ℕ) (cs : List ℕ) → Ends (λ r. length r.1 ≤ length cs) (digits_loop a cs)
unfolding digits_loop
digits_loop-Ends a [] = omega arith
digits_loop-Ends a (c ∷ cs) = elim (Bool-cases (isdigit c)) [
  | inl e ↦ elim (Bool-cases (ltb (a * 10 + c) (2 ^ 31))) [
    | inl f ↦
        rw (e, f)
          (Ends-mono _ _ (digits_loop (a * 10 + c - b'0') cs) (λ r h. omega arith)
            (digits_loop-Ends (a * 10 + c - b'0') cs))
    | inr f ↦ rw (e, f) tt
  ]
  | inr e ↦ rw e (omega arith)
]

getnum-Ends : (cs : List ℕ) (df : ℕ) → Ends (λ r. length r.1 ≤ length cs) (getnum cs df)
unfolding getnum
getnum-Ends [] df = omega arith
getnum-Ends (c ∷ cs) df = elim (Bool-cases (isdigit c)) [
  | inl e ↦ let d = digits_loop-Ends 0 (c ∷ cs) in rw e (rw e at d)
  | inr e ↦ rw e (omega arith)
]

optsize-Ends : (k : Kind) (cs : List ℕ) → Ends (λ r. length r.1 ≤ length cs) (optsize k cs)
unfolding optsize
optsize-Ends chars cs = getnum-Ends cs 1
optsize-Ends int cs =
    Ends-bind (λ r. length r.1 ≤ length cs) _ (getnum cs 4) _ (getnum-Ends cs 4)
      (λ r h. Ends-error_if _ (ltb 32 r.0) _ (ok r) h)
optsize-Ends _ cs = omega arith

getnum_ends :
    (cs : List ℕ) (df : ℕ)
    → (getnum cs df ≢ no_fuel) × ((r : ℕ × List ℕ) → getnum cs df ≡ ok r → length r.1 ≤ length cs)
getnum_ends cs df = Ends-parts _ (getnum cs df) (getnum-Ends cs df)

controloptions_ends :
    (c : ℕ) (cs : List ℕ) (h : Header)
    → (controloptions c cs h ≢ no_fuel)
      × ((r : Header × List ℕ) → controloptions c cs h ≡ ok r → length r.1 ≤ length cs)
unfolding controloptions
controloptions_ends c cs h = (
  λ e. ground (arith, (getnum_ends cs 8).0),
  λ r e. elim (Outcome-cases (getnum cs 8)) [
    | inl (x, g) ↦ ground (arith, g, (getnum_ends cs 8).1 x g)
    | inr g ↦ grind (arith, g)
  ],
)

optsize_ends :
    (k : Kind) (cs : List ℕ)
    → (optsize k cs ≢ no_fuel) × ((r : ℕ × List ℕ) → optsize k cs ≡ ok r → length r.1 ≤ length cs)
optsize_ends k cs = Ends-parts _ (optsize k cs) (optsize-Ends k cs)

size_step_ends :
    (c : ℕ) (cs : List ℕ) (hd : Header) (at : ℕ)
    → (size_step c cs hd at ≢ no_fuel)
      × ((r : List ℕ × Header × ℕ) → size_step c cs hd at ≡ ok r → length r.0 ≤ length cs)
unfolding size_step
size_step_ends c cs hd at = elim (Outcome-cases (optsize (kind c) cs)) [
  | inl (x, g) ↦
      let shorter = (optsize_ends (kind c) cs).1 x g in
      let (a, b) = controloptions_ends c x.1 hd in
      (
        λ e. ground (arith, g, a),
        λ r e. elim (Outcome-cases (controloptions c x.1 hd)) [
          | inl (y, k) ↦ ground (arith, g, k, shorter, b y k)
          | inr k ↦ grind (arith, g, k, shorter)
        ],
      )
  | inr g ↦ (λ e. grind (arith, g, (optsize_ends (kind c) cs).0), λ r e. grind (arith, g))
]

size_loop-ne-no_fuel :
    (fuel : ℕ) (fmt : List ℕ) (hd : Header) (at : ℕ)
    → length fmt ≤ fuel
    → size_loop fuel fmt hd at ≢ no_fuel
unfolding size_loop
size_loop-ne-no_fuel fuel [] hd at l = cc
size_loop-ne-no_fuel zero (c ∷ cs) hd at l = absurd (omega arith)
size_loop-ne-no_fuel (suc fuel) (c ∷ cs) hd at l =
    let (a, b) = size_step_ends c cs hd at in
    elim (Outcome-cases (size_step c cs hd at)) [
      | inl (r, g) ↦ rw g (size_loop-ne-no_fuel fuel r.0 r.1 r.2 (omega (arith, b r g)))
      | inr g ↦ λ e. grind (arith, a, g)
    ]

module _ (h : Host) where
  next_number-ne-no_fuel : (p : Packer h) → next_number h p ≢ no_fuel
  unfolding next_number
  next_number-ne-no_fuel p e = ground arith

  pack_integer_ends :
      (fmt : List ℕ) (size : ℕ) (p : Packer h)
      → (pack_integer h fmt size p ≢ no_fuel)
        × ((r : List ℕ × ℕ × Packer h) → pack_integer h fmt size p ≡ ok r → r.0 ≡ fmt)
  unfolding pack_integer
  pack_integer_ends fmt size p =
      (λ e. ground (arith, next_number-ne-no_fuel p), λ r e. ground arith)

  pack_bytes_ends :
      (bytes : h.Number → List ℕ) (fmt : List ℕ) (size : ℕ) (p : Packer h)
      → (pack_bytes h bytes fmt size p ≢ no_fuel)
        × ((r : List ℕ × ℕ × Packer h) → pack_bytes h bytes fmt size p ≡ ok r → r.0 ≡ fmt)
  unfolding pack_bytes
  pack_bytes_ends bytes fmt size p =
      (λ e. ground (arith, next_number-ne-no_fuel p), λ r e. ground arith)

  next_string-ne-no_fuel : (p : Packer h) → next_string h p ≢ no_fuel
  unfolding next_string
  next_string-ne-no_fuel p e = ground arith

  pack_string_ends :
      (tail fmt : List ℕ) (size : ℕ) (p : Packer h)
      → (pack_string h tail fmt size p ≢ no_fuel)
        × ((r : List ℕ × ℕ × Packer h) → pack_string h tail fmt size p ≡ ok r → r.0 ≡ fmt)
  unfolding pack_string
  pack_string_ends tail fmt size p =
      (λ e. ground (arith, next_string-ne-no_fuel p), λ r e. ground arith)

  pack_option_ends :
      (c : ℕ) (k : Kind) (fmt : List ℕ) (size : ℕ) (p : Packer h)
      → (pack_option h c k fmt size p ≢ no_fuel)
        × ((r : List ℕ × ℕ × Packer h)
            → pack_option h c k fmt size p ≡ ok r
            → length r.0 ≤ length fmt)
  unfolding pack_option
  pack_option_ends c float fmt size p =
      let (a, b) = pack_bytes_ends h.float_bytes fmt size p in (a, λ r e. ground (arith, b r e))
  pack_option_ends c double fmt size p =
      let (a, b) = pack_bytes_ends h.double_bytes fmt size p in (a, λ r e. ground (arith, b r e))
  pack_option_ends c chars fmt size p =
      let (a, b) = pack_string_ends [] fmt size p in (a, λ r e. ground (arith, b r e))
  pack_option_ends c zstring fmt size p =
      let (a, b) = pack_string_ends (0 ∷ []) fmt size p in (a, λ r e. ground (arith, b r e))
  pack_option_ends c pad fmt size p = (λ e. cc, λ r e. ground arith)
  pack_option_ends c control fmt size p =
      let (a, b) = controloptions_ends c fmt p.header in
      (
        λ e. ground (arith, a),
        λ r e. elim (Outcome-cases (controloptions c fmt p.header)) [
          | inl (x, g) ↦ ground (arith, g, b x g)
          | inr g ↦ grind (arith, g)
        ],
      )
  pack_option_ends c _ fmt size p =
      let (a, b) = pack_integer_ends fmt size p in (a, λ r e. ground (arith, b r e))

  pack_step_ends :
      (c : ℕ) (cs : List ℕ) (p : Packer h)
      → (pack_step h c cs p ≢ no_fuel)
        × ((r : List ℕ × Packer h) → pack_step h c cs p ≡ ok r → length r.0 ≤ length cs)
  unfolding pack_step
  pack_step_ends c cs p = elim (Outcome-cases (optsize (kind c) cs)) [
    | inl (x, g) ↦
        let n = gettoalign p.totalsize p.header (kind c) x.0 in
        let q : Packer h = record p {
          totalsize = size_add p.totalsize n;
          b = p.b ++ replicate n 0;
        } in
        let (a, b) = pack_option_ends c (kind c) x.1 x.0 q in
        let shorter = (optsize_ends (kind c) cs).1 x g in
        (
          λ e. ground (arith, g, a),
          λ r e. elim (Outcome-cases (pack_option h c (kind c) x.1 x.0 q)) [
            | inl (y, k) ↦ ground (arith, g, k, shorter, b y k)
            | inr k ↦ grind (arith, g, k)
          ],
        )
    | inr g ↦ (λ e. grind (arith, g, (optsize_ends (kind c) cs).0), λ r e. grind (arith, g))
  ]

  pack_loop-ne-no_fuel :
      (fuel : ℕ) (fmt : List ℕ) (p : Packer h)
      → length fmt ≤ fuel
      → pack_loop h fuel fmt p ≢ no_fuel
  unfolding pack_loop
  pack_loop-ne-no_fuel fuel [] p l = cc
  pack_loop-ne-no_fuel zero (c ∷ cs) p l = absurd (omega arith)
  pack_loop-ne-no_fuel (suc fuel) (c ∷ cs) p l =
      let (a, b) = pack_step_ends c cs p in
      elim (Outcome-cases (pack_step h c cs p)) [
        | inl (r, g) ↦ rw g (pack_loop-ne-no_fuel fuel r.0 r.1 (omega (arith, b r g)))
        | inr g ↦ λ e. grind (arith, a, g)
      ]

  unpack_item_ends :
      (bytes : List ℕ) (c : ℕ) (k : Kind) (fmt : List ℕ) (size : ℕ) (u : Unpacker h)
      → (unpack_option h bytes c k fmt size u ≢ no_fuel)
        × ((r : List ℕ × ℕ × Unpacker h)
            → unpack_option h bytes c k fmt size u ≡ ok r
            → length r.0 ≤ length fmt)
  unfolding unpack_option unpack_integer unpack_float unpack_chars unpack_zstring read getinteger
      sign_extend top_size
  unpack_item_ends bytes c float fmt size u = (λ e. ground arith, λ r e. ground arith)
  unpack_item_ends bytes c double fmt size u = (λ e. ground arith, λ r e. ground arith)
  unpack_item_ends bytes c chars fmt zero u = (λ e. ground arith, λ r e. ground arith)
  unpack_item_ends bytes c chars fmt (suc n) u = (λ e. ground arith, λ r e. ground arith)
  unpack_item_ends bytes c zstring fmt size u = (λ e. ground arith, λ r e. ground arith)
  unpack_item_ends bytes c pad fmt size u = (λ e. cc, λ r e. ground arith)
  unpack_item_ends bytes c control fmt size u =
      let (a, b) = controloptions_ends c fmt u.header in
      (
        λ e. ground (arith, a),
        λ r e. elim (Outcome-cases (controloptions c fmt u.header)) [
          | inl (x, g) ↦ ground (arith, g, b x g)
          | inr g ↦ grind (arith, g)
        ],
      )
  unpack_item_ends bytes c _ fmt size u = (λ e. ground arith, λ r e. ground arith)

  unpack_step_ends :
      (bytes : List ℕ) (c : ℕ) (cs : List ℕ) (u : Unpacker h)
      → (unpack_step h bytes c cs u ≢ no_fuel)
        × ((r : List ℕ × Unpacker h) → unpack_step h bytes c cs u ≡ ok r → length r.0 ≤ length cs)
  unfolding unpack_step
  unpack_step_ends bytes c cs u = elim (Outcome-cases (optsize (kind c) cs)) [
    | inl (x, g) ↦
        let v : Unpacker h = record u {
          at = size_add u.at (gettoalign u.at u.header (kind c) x.0);
        } in
        let (a, b) = unpack_item_ends bytes c (kind c) x.1 x.0 v in
        let shorter = (optsize_ends (kind c) cs).1 x g in
        (
          λ e. ground (arith, g, a),
          λ r e. elim (Outcome-cases (unpack_option h bytes c (kind c) x.1 x.0 v)) [
            | inl (y, k) ↦ ground (arith, g, k, shorter, b y k)
            | inr k ↦ grind (arith, g, k)
          ],
        )
    | inr g ↦ (λ e. grind (arith, g, (optsize_ends (kind c) cs).0), λ r e. grind (arith, g))
  ]

  unpack_loop-ne-no_fuel :
      (fuel : ℕ) (bytes fmt : List ℕ) (u : Unpacker h)
      → length fmt ≤ fuel
      → unpack_loop h fuel bytes fmt u ≢ no_fuel
  unfolding unpack_loop
  unpack_loop-ne-no_fuel fuel bytes [] u l = cc
  unpack_loop-ne-no_fuel zero bytes (c ∷ cs) u l = absurd (omega arith)
  unpack_loop-ne-no_fuel (suc fuel) bytes (c ∷ cs) u l =
      let (a, b) = unpack_step_ends bytes c cs u in
      elim (Outcome-cases (unpack_step h bytes c cs u)) [
        | inl (r, g) ↦ rw g (unpack_loop-ne-no_fuel fuel bytes r.0 r.1 (omega (arith, b r g)))
        | inr g ↦ λ e. grind (arith, a, g)
      ]

-- The loops of `b_pack`, `b_size` and `b_unpack` end within one round for each byte of the format,
-- whatever the format, the arguments and the data: none of them runs out of fuel.
pub loops_end :
    (h : Host) (format bytes : List ℕ) (args : List h.Value) (start : ℤ)
    → (b_pack h format args ≢ no_fuel)
      × (b_size format ≢ no_fuel)
      × (b_unpack h format bytes start ≢ no_fuel)
unfolding b_pack b_size b_unpack
loops_end h format bytes args start = (
  pack_loop-ne-no_fuel h (length fmt) fmt _ (omega arith),
  λ e. ground (arith, size_loop-ne-no_fuel (length fmt) fmt defaultoptions 0 (omega arith)),
  λ e. ground (arith, unpack_loop-ne-no_fuel h (length fmt) bytes fmt first (omega arith)),
)
  where
    fmt : List ℕ
    fmt = cstring format

    first : Unpacker h
    first = record {
      header = defaultoptions;
      at = size_add (to_unsigned start) (2 ^ 32 - 1);
      stack = h.pushlstring bytes ∷ h.pushlstring format ∷ [];
    }

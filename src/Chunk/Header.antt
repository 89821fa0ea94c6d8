-- ===== src/Chunk/Header.antt =====
-- Lua/src/lundump.cpp: which headers are accepted, and the write of `LoadDebug` behind the upvalues.
use addons_terraria_tshock.Common.{
  ℕ, zero, suc, ◌-◌, ◌≤◌, ◌<◌, ◌==◌, true, false, Bool-cases, Option, List, [], ◌∷◌, ◌++◌, length,
  take, drop, take-append-drop, ◌⊎◌, ◌≢◌, inl, inr, ◌≡◌, refl, sym, ap, ◌∙◌, arith, eq_of_==,
  ==_self,
}
use mathlib.Core.Path.{ap₂}
use addons_terraria_tshock.Common.Outcome.{ok, err, chunk_error}
use addons_terraria_tshock.Zio.{Zio}
use addons_terraria_tshock.Zio.Reading.{Ahead, lua_z_read_lem}
use addons_terraria_tshock.Chunk.{Bytes, lua_u_header}
use addons_terraria_tshock.Chunk.Load.{load_block}
use addons_terraria_tshock.Chunk.Undump.{same_bytes, load_header}

-- What the comparison of the first n bytes says, of a list of which m bytes were read.
same_bytes_prefix :
    (n m : ℕ) (a b : Bytes)
    → n ≤ m
    → n ≤ length a
    → n ≤ length b
    → same_bytes n a (take m b) ≡ true
    → take n b ≡ take n a
same_bytes_prefix zero m a b h k l e = refl
same_bytes_prefix (suc n) zero a b h k l e = absurd (omega (arith, h))
same_bytes_prefix (suc n) (suc m) [] b h k l e = absurd (omega (arith, k))
same_bytes_prefix (suc n) (suc m) (x ∷ a) [] h k l e = absurd (omega (arith, l))
same_bytes_prefix (suc n) (suc m) (x ∷ a) (y ∷ b) h k l e = elim (Bool-cases (x == y)) [
  | inl q ↦ ap₂ ◌∷◌ (sym (eq_of_== x y q)) (
      same_bytes_prefix n m a b (omega (arith, h)) (omega (arith, k)) (omega (arith, l))
        (rw q at e))
  | inr q ↦ cc
]

prefix-same_bytes :
    (n m : ℕ) (a b : Bytes)
    → n ≤ m
    → n ≤ length b
    → take n b ≡ take n a
    → same_bytes n a (take m b) ≡ true
prefix-same_bytes zero m a b h l e = refl
prefix-same_bytes (suc n) zero a b h l e = absurd (omega (arith, h))
prefix-same_bytes (suc n) (suc m) [] b h l e = refl
prefix-same_bytes (suc n) (suc m) (x ∷ a) [] h l e = absurd (omega (arith, l))
prefix-same_bytes (suc n) (suc m) (x ∷ a) (y ∷ b) h l e =
    rw (same x y cc, prefix-same_bytes n m a b (omega (arith, h)) (omega (arith, l)) cc) refl
  where
    same : (x y : ℕ) → y ≡ x → (x == y) ≡ true
    same x y q = ap (◌==◌ x) q ∙ ==_self x

-- The bytes of a header behind its first one, of which a list has the first m, but not the first n.
abbrev pub header_rest : Bytes
header_rest = drop 1 lua_u_header

abbrev pub Differs : ℕ → ℕ → List ℕ → Type 0
Differs m n s = (take m s ≡ take m header_rest) × (take n s ≢ take n header_rest)

differs :
    (n : ℕ) (s : List ℕ)
    → n ≤ 17
    → 17 ≤ length s
    → same_bytes n header_rest (take 17 s) ≡ false
    → take n s ≢ take n header_rest
differs n s h l e q = cc (e, prefix-same_bytes n 17 header_rest s h (omega (arith, h, l)) q)

agrees :
    (n : ℕ) (s : List ℕ)
    → n ≤ 17
    → 17 ≤ length s
    → same_bytes n header_rest (take 17 s) ≡ true
    → take n s ≡ take n header_rest
unfolding lua_u_header
agrees n s h l e = same_bytes_prefix n 17 header_rest s h (omega (arith, h)) (omega (arith, h, l)) e

module _ {D : Type 0} (reader : D → Option (List ℕ) × D) (name : Bytes) where
  -- A header that is accepted, too few bytes, or the error of the first difference.
  abbrev pub HeaderAnswer : Zio D → List ℕ → Type 0
  HeaderAnswer z s =
      ((rest : List ℕ) × (y : Zio D) × (s ≡ header_rest ++ rest)
        × (load_header reader name z ≡ ok (tt, y))
        × Ahead D reader y rest)
      ⊎ (length s < 17) × (load_header reader name z ≡ err (chunk_error name "truncated"))
      ⊎ (17 ≤ length s)
        × ((Differs 0 3 s × (load_header reader name z ≡ err (chunk_error name "not a")))
            ⊎ (Differs 3 5 s
                × (load_header reader name z ≡ err (chunk_error name "version mismatch in")))
            ⊎ (Differs 5 11 s × (load_header reader name z ≡ err (chunk_error name "incompatible")))
            ⊎ (Differs 11 17 s × (load_header reader name z ≡ err (chunk_error name "corrupted"))))

  -- If the bytes ahead begin with those of this build's header behind its first byte, they are taken. If
  -- they are fewer than 17, the chunk is refused as truncated. Otherwise the error says where the first
  -- difference is: in the signature, in the version and the format, in the six bytes on the host's types,
  -- or in the tail.
  pub load_header_lem : (z : Zio D) (s : List ℕ) → Ahead D reader z s → HeaderAnswer z s
  unfolding load_header load_block lua_u_header
  load_header_lem z s ahead =
      let (y, e, left) = lua_z_read_lem D reader z 17 s ahead in
      elim (Bool-cases (17 - length s == 0)) [
        | inr short ↦ inr (inl (ground (arith, short), rw (e, short) refl))
        | inl there ↦ elim (Bool-cases (same_bytes 17 header_rest (take 17 s))) [
          | inl same ↦ elim left [
            | inl a ↦ inl (drop 17 s, y, begins (full there) same, rw (e, there, same) refl, a)
            | inr few ↦ absurd (ground (arith, few, there))
          ]
          | inr other ↦ inr (
              inr (
                full there,
                elim (Bool-cases (same_bytes 3 header_rest (take 17 s))) [
                  | inr a ↦ inl (
                    (refl, differs 3 s (omega arith) (full there) a),
                    rw (e, there, other, a) refl,
                  )
                  | inl a ↦ inr (elim (Bool-cases (same_bytes 5 header_rest (take 17 s))) [
                    | inr b ↦ inl (
                      (
                        agrees 3 s (omega arith) (full there) a,
                        differs 5 s (omega arith) (full there) b,
                      ),
                      rw (e, there, other, a, b) refl,
                    )
                    | inl b ↦ inr (elim (Bool-cases (same_bytes 11 header_rest (take 17 s))) [
                      | inr c ↦ inl (
                        (
                          agrees 5 s (omega arith) (full there) b,
                          differs 11 s (omega arith) (full there) c,
                        ),
                        rw (e, there, other, a, b, c) refl,
                      )
                      | inl c ↦ inr (
                        (
                          agrees 11 s (omega arith) (full there) c,
                          differs 17 s (omega arith) (full there) other,
                        ),
                        rw (e, there, other, a, b, c) refl,
                      )
                    ])
                  ])
                ],
              ))
        ]
      ]
    where
      full : (17 - length s == 0) ≡ true → 17 ≤ length s
      full there = ground (arith, there)

      begins :
          17 ≤ length s
          → same_bytes 17 header_rest (take 17 s) ≡ true
          → s ≡ header_rest ++ drop 17 s
      begins l same =
          sym (take-append-drop 17 s)
          ∙ ap (λ (t : Bytes). t ++ drop 17 s) (agrees 17 s (omega arith) l same)

-- ===== src/Zio/Reading.antt =====
-- Lua/src/lzio.cpp: a buffered stream read as the flat sequence of its bytes.
use addons_terraria_tshock.Common.{
  ℕ, zero, suc, ◌-◌, ◌≤◌, ◌<◌, min, leb, ◌==◌, if◌then◌else◌, false, Option, none, some, List, [],
  ◌∷◌, ◌++◌, length, take, drop, ◌≡◌, ◌⊎◌, inl, inr, refl, sym, ap, subst, ◌∙◌, le→leb, arith,
  length-append, length-drop, take-append_le, drop-append_le, take_split, drop_split,
}
use mathlib.Core.Path.{ap₂}
use mathlib.Core.List.{append_assoc, append-nil}
use addons_terraria_tshock.Common.Outcome.{Outcome, ok}
use addons_terraria_tshock.Zio.{Zio, ended, ready, lua_z_fill, zgetc, refill, read_loop, lua_z_read}

nonzero : (n : ℕ) → (suc n == 0) ≡ false
nonzero n = ground arith

cons_parts : {x y : ℕ} {xs ys : List ℕ} → x ∷ xs ≡ y ∷ ys → (x ≡ y) × (xs ≡ ys)
cons_parts q = (cc, cc)

module _ (D : Type 0) (reader : D → Option (List ℕ) × D) where
  -- From its data the reader gives these bytes, in buffers, up to its first empty or missing buffer.
  pub data Yields : D → List ℕ → Type 0 where
    ends : {d e : D} → reader d ≡ (none, e) → Yields d []
    ends_empty : {d e : D} → reader d ≡ (some [], e) → Yields d []
    more :
        {d e : D} {c : ℕ} {cs rest : List ℕ}
        → reader d ≡ (some (c ∷ cs), e)
        → Yields e rest
        → Yields d (c ∷ (cs ++ rest))

  -- The stream has these bytes ahead: those in its buffer, and those that the reader gives.
  abbrev pub Ahead : Zio D → List ℕ → Type 0
  Ahead z s = (z.n ≡ length z.p) × (rest : List ℕ) × (Yields z.data_of rest) × (s ≡ z.p ++ rest)

  -- What the head of the loop of `luaZ_read` finds, before the bytes s: the end, or a buffer.
  abbrev Refilled : Zio D → List ℕ → Type 0
  Refilled z s =
      ((s ≡ []) × (y : Zio D) × (refill D reader z ≡ ended y))
      ⊎ ((y : Zio D) × (refill D reader z ≡ ready y) × (1 ≤ y.n) × Ahead y s)

  refill_parts :
      (n : ℕ) (p : List ℕ) (d : D) (rest : List ℕ)
      → n ≡ length p
      → Yields d rest
      → Refilled (record { n = n; p = p; data_of = d }) (p ++ rest)
  unfolding refill lua_z_fill
  refill_parts zero [] d _ e (ends {e = g} r) =
      inl (refl, record { n = 0; p = []; data_of = g }, rw r refl)
  refill_parts zero [] d _ e (ends_empty {e = g} r) =
      inl (refl, record { n = 0; p = []; data_of = g }, rw r refl)
  refill_parts zero [] d _ e (more {e = g} {c = c} {cs = cs} {rest = more_rest} r y) = inr (
    record { n = suc (length cs); p = c ∷ cs; data_of = g },
    rw r refl,
    omega arith,
    (refl, more_rest, y, refl),
  )
  refill_parts zero (c ∷ cs) d rest e y = absurd (omega arith)
  refill_parts (suc n) p d rest e y = inr (
    record { n = suc n; p = p; data_of = d },
    rw (nonzero n) refl,
    omega arith,
    (e, rest, y, refl),
  )

  -- Zio after m bytes are taken from its buffer.
  Ahead-drop :
      (z : Zio D) (s : List ℕ) (m : ℕ)
      → m ≤ z.n
      → Ahead z s
      → Ahead (record z { n = z.n - m; p = drop m z.p }) (drop m s)
  Ahead-drop z s m h (e, rest, y, q) = (
    omega (arith, length-drop m z.p),
    rest,
    y,
    ap (drop m) q ∙ drop-append_le m z.p rest (omega arith),
  )

  take-Ahead : (z : Zio D) (s : List ℕ) (m : ℕ) → m ≤ z.n → Ahead z s → take m s ≡ take m z.p
  take-Ahead z s m h (e, rest, y, q) = ap (take m) q ∙ take-append_le m z.p rest (omega arith)

  refill_lem : (z : Zio D) (s : List ℕ) → Ahead z s → Refilled z s
  refill_lem z s (e, rest, y, q) =
      subst (Refilled z) (sym q) (refill_parts z.n z.p z.data_of rest e y)

  chosen : (k n : ℕ) → (if leb k n then k else n) ≡ min k n
  chosen k n = ground arith

  Ahead-length : (z : Zio D) (s : List ℕ) (m : ℕ) → m ≤ z.n → Ahead z s → m ≤ length s
  Ahead-length z s m h (e, rest, y, q) = omega (arith, ap length q, length-append z.p rest)

  -- The bytes and the count after m bytes are taken, then the rest.
  joined :
      (k m : ℕ) (b : List ℕ) (y w : Zio D) (s : List ℕ)
      → m ≤ k
      → m ≤ y.n
      → Ahead y s
      → ◌≡◌ {A = Outcome (List ℕ × ℕ × Zio D)}
          (ok ((b ++ take m y.p) ++ take (k - m) (drop m s), k - m - length (drop m s), w))
          (ok (b ++ take k s, k - length s, w))
  joined k m b y w s h l a =
      ap₂ (λ (t : List ℕ) (u : ℕ). ok (t, u, w))
        (append_assoc b (take m y.p) (take (k - m) (drop m s))
          ∙ ap (λ (t : List ℕ). b ++ t)
              (ap (λ (t : List ℕ). t ++ take (k - m) (drop m s)) (sym (take-Ahead y s m l a))
                ∙ sym (take_split m k (k - m) s (omega arith))))
        (omega (arith, length-drop m s, Ahead-length y s m l a))

  stays :
      (k m : ℕ) (w : Zio D) (s : List ℕ)
      → m ≤ k
      → (Ahead w (drop (k - m) (drop m s)) ⊎ (length (drop m s) < k - m))
      → (Ahead w (drop k s) ⊎ (length s < k))
  stays k m w s h (inl a) = inl (subst (Ahead w) (sym (drop_split m k (k - m) s (omega arith))) a)
  stays k m w s h (inr l) = inr (omega (arith, length-drop m s))

  read_loop_lem :
      (fuel k : ℕ) (b : List ℕ) (z : Zio D) (s : List ℕ)
      → k ≤ fuel
      → Ahead z s
      → (y : Zio D) × (read_loop D reader fuel k b z ≡ ok (b ++ take k s, k - length s, y))
        × (Ahead y (drop k s) ⊎ (length s < k))
  unfolding read_loop
  read_loop_lem fuel zero b z s h a =
      (z, ap₂ (λ (t : List ℕ) (u : ℕ). ok (t, u, z)) (sym (append-nil b)) (omega arith), inl a)
  read_loop_lem zero (suc n) b z s h a = absurd (omega arith)
  read_loop_lem (suc fuel) (suc n) b z s h a = elim (refill_lem z s a) [
    | inl (empty, y, e) ↦ (
      y,
      rw (e, empty) (ap₂ (λ (t : List ℕ) (u : ℕ). ok (t, u, y)) (sym (append-nil b)) (omega arith)),
      inr (rw empty (omega arith)),
    )
    | inr (y, e, one, ahead) ↦
        let m = min (suc n) y.n in
        let (w, r, left) =
          read_loop_lem fuel (suc n - m) (b ++ take m y.p)
            (record y { n = y.n - m; p = drop m y.p }) (drop m s) (omega arith)
            (Ahead-drop y s m (omega arith) ahead) in
        (
          w,
          rw (e, chosen (suc n) y.n, le→leb m (length y.p) (omega (arith, ahead.0)))
              (r ∙ joined (suc n) m b y w s (omega arith) (omega arith) ahead),
          stays (suc n) m w s (omega arith) left,
        )
  ]

  -- From a stream with the bytes s ahead, `luaZ_read` copies the first k of them, or all if there are
  -- fewer, and returns how many are missing. However the reader cuts them into buffers, the bytes
  -- behind these are ahead then, unless some were missing.
  pub lua_z_read_lem :
      (z : Zio D) (k : ℕ) (s : List ℕ)
      → Ahead z s
      → (y : Zio D) × (lua_z_read D reader z k ≡ ok (take k s, k - length s, y))
        × (Ahead y (drop k s) ⊎ (length s < k))
  unfolding lua_z_read
  lua_z_read_lem z k s a = read_loop_lem k k [] z s (omega arith) a

  zgetc_parts :
      (n : ℕ) (p : List ℕ) (d : D) (rest : List ℕ) (c : ℕ) (s : List ℕ)
      → n ≡ length p
      → Yields d rest
      → c ∷ s ≡ p ++ rest
      → (y : Zio D) × (zgetc D reader (record { n = n; p = p; data_of = d }) ≡ ok (some c, y))
        × Ahead y s
  unfolding zgetc lua_z_fill
  zgetc_parts zero [] d _ c s e (ends r) q = absurd (ground (arith, q))
  zgetc_parts zero [] d _ c s e (ends_empty r) q = absurd (ground (arith, q))
  zgetc_parts zero [] d _ c s e (more {e = g} {c = x} {cs = cs} {rest = rest} r y) q =
      let (same, tail) = cons_parts q in
      (record { n = length cs; p = cs; data_of = g }, rw (r, same) refl, (refl, rest, y, tail))
  zgetc_parts zero (x ∷ p) d rest c s e y q = absurd (omega arith)
  zgetc_parts (suc n) [] d rest c s e y q = absurd (omega arith)
  zgetc_parts (suc n) (x ∷ p) d rest c s e y q =
      let (same, tail) = cons_parts q in
      (record { n = n; p = p; data_of = d }, rw same refl, (omega arith, rest, y, tail))

  -- The byte that `zgetc` returns is the first one ahead.
  pub zgetc_lem :
      (z : Zio D) (c : ℕ) (s : List ℕ)
      → Ahead z (c ∷ s)
      → (y : Zio D) × (zgetc D reader z ≡ ok (some c, y)) × Ahead y s
  unfolding zgetc lua_z_fill
  zgetc_lem z c s (e, rest, y, q) = zgetc_parts z.n z.p z.data_of rest c s e y q

-- ===== src/Chunk/Reads.antt =====
-- Lua/src/lundump.cpp: what a call reads of the bytes ahead, and how calls that follow one another read.
use addons_terraria_tshock.Common.{
  ℕ, Option, List, [], ◌∷◌, ◌++◌, map, length, flatten, flatten-append, All, ◌≡◌, refl, ap, subst,
  ◌∙◌, ◌≤◌, ◌⊎◌, inl, inr, arith, length-append,
}
use mathlib.Core.Path.{ap₂}
use mathlib.Core.List.{append_assoc}
use addons_terraria_tshock.Common.Outcome.{Outcome, ok, err, chunk_error}
use addons_terraria_tshock.Zio.{Zio}
use addons_terraria_tshock.Zio.Reading.{Ahead}
use addons_terraria_tshock.Chunk.{Bytes}
use addons_terraria_tshock.Chunk.Dump.{Blocks, for_each}
use addons_terraria_tshock.Chunk.Loader.{Loader, ◌>>=◌, pure, lift, load_each}

-- The first part of a list that two splits share.
prefix_cases :
    (s t xs ys : List ℕ)
    → s ++ t ≡ xs ++ ys
    → ((u : List ℕ) × (s ++ u ≡ xs) × (1 ≤ length u))
      ⊎ ((u : List ℕ) × (s ≡ xs ++ u) × (u ++ t ≡ ys))
prefix_cases s t [] ys e = inr (s, refl, e)
prefix_cases [] t (x ∷ xs) ys e = inl (x ∷ xs, refl, omega arith)
prefix_cases (c ∷ s) t (x ∷ xs) ys e = elim (prefix_cases s t xs ys cc) [
  | inl (u, f, h) ↦ (let g : c ≡ x = cc in inl (u, ap₂ ◌∷◌ g f, h))
  | inr (u, f, h) ↦ (let g : c ≡ x = cc in inr (u, ap₂ ◌∷◌ g f, h))
]

module _ {D : Type 0} (reader : D → Option (List ℕ) × D) (name : Bytes) where
  -- Wherever these blocks are ahead, the call takes them and returns the value.
  abbrev pub Takes : {A : Type 0} → Loader (Zio D) A → Blocks → A → Type 0
  Takes p bs a =
      (z : Zio D) (rest : List ℕ)
      → Ahead D reader z (flatten bs ++ rest)
      → (y : Zio D) × (p z ≡ ok (a, y)) × Ahead D reader y rest

  -- Where the stream ends before the end of these blocks, the call says that the chunk is truncated.
  abbrev pub Misses : {A : Type 0} → Loader (Zio D) A → Blocks → Type 0
  Misses p bs =
      (z : Zio D) (s t : List ℕ)
      → Ahead D reader z s
      → s ++ t ≡ flatten bs
      → 1 ≤ length t
      → p z ≡ err (chunk_error name "truncated")

  abbrev pub Reads : {A : Type 0} → Loader (Zio D) A → Blocks → A → Type 0
  Reads p bs a = Takes p bs a × Misses p bs

  pub Reads-pure : {A : Type 0} (a : A) → Reads (pure a) [] a
  Reads-pure a = (
    λ z rest h. (z, refl, h),
    λ z s t h e l. absurd (omega (arith, ap length e, length-append s t)),
  )

  pub Reads-bind :
      {A B : Type 0} (p : Loader (Zio D) A) (k : A → Loader (Zio D) B) (bs cs : Blocks) (a : A)
      (b : B)
      → Reads p bs a
      → Reads (k a) cs b
      → Reads (p >>= k) (bs ++ cs) b
  Reads-bind p k bs cs a b (r, miss) (s, miss_next) = (both, either)
    where
      both : Takes (p >>= k) (bs ++ cs) b
      both z rest h =
          let apart : flatten (bs ++ cs) ++ rest ≡ flatten bs ++ (flatten cs ++ rest) =
            ap (λ (t : List ℕ). t ++ rest) (flatten-append bs cs)
            ∙ append_assoc (flatten bs) (flatten cs) rest in
          let (y, e, g) = r z (flatten cs ++ rest) (subst (Ahead D reader z) apart h) in
          let (w, f, i) = s y rest g in (w, rw e f, i)

      either : Misses (p >>= k) (bs ++ cs)
      either z u t h e l =
          elim (prefix_cases u t (flatten bs) (flatten cs) (e ∙ flatten-append bs cs)) [
            | inl (v, f, m) ↦ rw (miss z u v h f m) refl
            | inr (v, f, g) ↦
                let (y, q, i) = r z v (subst (Ahead D reader z) f h) in rw q (miss_next y v t i g l)
          ]

  -- The value is made of what the last call returns.
  pub Reads-map :
      {A B : Type 0} (p : Loader (Zio D) A) (f : A → B) (bs : Blocks) (a : A)
      → Reads p bs a
      → Reads (p >>= λ x. pure (f x)) bs (f a)
  Reads-map p f bs a (r, miss) = (
    λ z rest h. let (y, e, g) = r z rest h in (y, rw e refl, g),
    λ z s t h e l. rw (miss z s t h e l) refl,
  )

  -- A check that passes, before other calls and behind one.
  pub Reads-lift :
      {A B : Type 0} (m : Outcome A) (k : A → Loader (Zio D) B) (bs : Blocks) (a : A) (b : B)
      → m ≡ ok a
      → Reads (k a) bs b
      → Reads (lift m >>= k) bs b
  Reads-lift m k bs a b e (r, miss) =
      (λ z rest h. rw e (r z rest h), λ z s t h f l. rw e (miss z s t h f l))

  pub Reads-check :
      {A B : Type 0} (p : Loader (Zio D) A) (f : A → Outcome B) (bs : Blocks) (a : A) (b : B)
      → f a ≡ ok b
      → Reads p bs a
      → Reads (p >>= λ x. lift (f x)) bs b
  Reads-check p f bs a b q (r, miss) = (
    λ z rest h. let (y, e, g) = r z rest h in (y, rw (e, q) refl, g),
    λ z s t h e l. rw (miss z s t h e l) refl,
  )

  pub Reads-value :
      {A : Type 0} (p : Loader (Zio D) A) (bs : Blocks) (a b : A)
      → a ≡ b
      → Reads p bs a
      → Reads p bs b
  Reads-value p bs a b e (r, miss) = (subst (Takes p bs) e r, miss)

  -- A loop reads what the elements are dumped as.
  pub Reads-each :
      {A B : Type 0} (load : Loader (Zio D) B) (dump : A → Blocks) (f : A → B) (Q : A → Type 0)
      → ((x : A) → Q x → Reads load (dump x) (f x))
      → (xs : List A) → All Q xs
      → Reads (load_each load (length xs)) (for_each dump xs) (map f xs)
  Reads-each load dump f Q each [] q = Reads-pure []
  Reads-each load dump f Q each (x ∷ xs) (q, qs) =
      Reads-bind load _ (dump x) (for_each dump xs) (f x) (map f (x ∷ xs)) (each x q) (
        Reads-map (load_each load (length xs)) (◌∷◌ (f x)) (for_each dump xs) (map f xs)
          (Reads-each load dump f Q each xs qs))

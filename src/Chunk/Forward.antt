-- ===== src/Chunk/Forward.antt =====
-- Lua/src/lundump.cpp: the calls that load the parts of a function read forward.
use addons_terraria_tshock.Common.{
  ℕ, zero, suc, ◌-◌, ◌*◌, ◌≤◌, ◌==◌, Bool, true, false, Bool-cases, if◌then◌else◌, Option, none,
  some, List, [], ◌∷◌, length, drop, length-drop, ◌≡◌, ◌≢◌, inl, inr, refl, arith,
}
use Prim.Native.String.{String}
use addons_terraria_tshock.Common.Outcome
use addons_terraria_tshock.Common.Int.{ℤ, pos, negsuc, to_signed}
use addons_terraria_tshock.Common.Outcome.{
  Outcome, ok, err, fault, no_fuel, defined, error_if, Ends, Ends-bind, Ends-parts, Ends-mono,
}
use addons_terraria_tshock.Zio.{Zio}
use addons_terraria_tshock.Zio.Reading.{Ahead, lua_z_read_lem}
use addons_terraria_tshock.Chunk.{Bytes, Upvaldesc}
use addons_terraria_tshock.Chunk.Loader.{Loader, ◌>>=◌, pure, lift, load_each}
use addons_terraria_tshock.Chunk.Load.{
  newvector, int_or_error, string_of, string_constant, load_block, load_word, load_char, load_byte,
  load_int, load_number, load_string, load_vector, constant_of, load_constant, load_array,
  load_upvalue, load_locvar, load_names, load_debug,
}

module _ {D : Type 0} (reader : D → Option (List ℕ) × D) where
  -- At most m bytes are left.
  abbrev pub Left : ℕ → Zio D → Type 0
  Left m z = (s : List ℕ) × Ahead D reader z s × (length s ≤ m)

  -- The call reads forward, and does not run out of fuel.
  abbrev pub Stops : {A : Type 0} → ℕ → Loader (Zio D) A → Type 0
  Stops m p = (z : Zio D) → Left m z → Ends (λ r. Left m r.1) (p z)

  Stops-pure : {A : Type 0} (m : ℕ) (a : A) → Stops m (pure a)
  Stops-pure m a z l = l

  pub Stops-bind :
      {A B : Type 0} (m : ℕ) (p : Loader (Zio D) A) (k : A → Loader (Zio D) B)
      → Stops m p
      → ((a : A) → Stops m (k a))
      → Stops m (p >>= k)
  Stops-bind m p k s t z l =
      Ends-bind (λ r. Left m r.1) (λ r. Left m r.1) (p z) _ (s z l) (λ r. t r.0 r.1)

  pub Stops-if :
      {A : Type 0} (m : ℕ) (b : Bool) (p q : Loader (Zio D) A)
      → Stops m p
      → Stops m q
      → Stops m (if b then p else q)
  Stops-if m true p q s t = s
  Stops-if m false p q s t = t

  Stops-lift : {A : Type 0} (m : ℕ) (o : Outcome A) → o ≢ no_fuel → Stops m (lift o)
  Stops-lift m (ok a) h z l = l
  Stops-lift m (err e) h z l = tt
  Stops-lift m fault h z l = tt
  Stops-lift m no_fuel h z l = h refl

  Stops-each :
      {A : Type 0} (m n : ℕ) (load : Loader (Zio D) A) → Stops m load → Stops m (load_each load n)
  Stops-each m zero load s z l = l
  Stops-each m (suc n) load s z l =
      Stops-bind m load _ s
        (λ x.
          Stops-bind m (load_each load n) _ (Stops-each m n load s) (λ xs. Stops-pure m (x ∷ xs)))
        z l

  module _ (name : Bytes) where
    -- A block of k bytes that is loaded was ahead.
    load_block-Left :
        (k m : ℕ) (z : Zio D)
        → Left m z
        → Ends (λ r. (k ≤ m) × Left (m - k) r.1) (load_block reader name k z)
    unfolding load_block
    load_block-Left k m z (s, ahead, l) =
        let (y, e, left) = lua_z_read_lem D reader z k s ahead in
        elim (Bool-cases (k - length s == 0)) [
          | inl there ↦
              rw (e, there)
                (elim left [
                  | inl a ↦ (enough there, (drop k s, a, omega (arith, l, length-drop k s)))
                  | inr short ↦ absurd (ground (arith, short, there))
                ])
          | inr missing ↦ rw (e, missing) tt
        ]
      where
        enough : (k - length s == 0) ≡ true → k ≤ m
        enough there = ground (arith, there, l)

    pub Stops-block : (k m : ℕ) → Stops m (load_block reader name k)
    Stops-block k m z l =
        Ends-mono (λ r. (k ≤ m) × Left (m - k) r.1) (λ r. Left m r.1) (load_block reader name k z)
          (λ r (h, (s, a, g)). (s, a, omega arith)) (load_block-Left k m z l)

    Stops-word : (k m : ℕ) → Stops m (load_word reader name k)
    unfolding load_word
    Stops-word k m = Stops-bind m (load_block reader name k) _ (Stops-block k m) (λ b y left. left)

    Stops-char : (m : ℕ) → Stops m (load_char reader name)
    unfolding load_char
    Stops-char m = Stops-bind m (load_word reader name 1) _ (Stops-word 1 m) (λ x y left. left)

    pub Stops-byte : (m : ℕ) → Stops m (load_byte reader name)
    unfolding load_byte
    Stops-byte m = Stops-bind m (load_char reader name) _ (Stops-char m) (λ x y left. left)

    int_ends : (m : ℕ) (x : ℤ) → Stops m (lift (int_or_error reader name x))
    int_ends m (pos n) z l = l
    int_ends m (negsuc n) z l = tt

    load_word-Left :
        (k m : ℕ) (z : Zio D)
        → Left m z
        → Ends (λ r. (k ≤ m) × Left (m - k) r.1) (load_word reader name k z)
    unfolding load_word
    load_word-Left k m z l =
        Ends-bind (λ r. (k ≤ m) × Left (m - k) r.1) (λ r. (k ≤ m) × Left (m - k) r.1)
          (load_block reader name k z) _ (load_block-Left k m z l) (λ r left. left)

    -- An integer that is loaded takes a byte at least.
    pub load_int-Left :
        (m : ℕ) (z : Zio D)
        → Left m z
        → Ends (λ r. (1 ≤ m) × Left (m - 1) r.1) (load_int reader name z)
    unfolding load_int
    load_int-Left m z l =
        Ends-bind (λ r. (4 ≤ m) × Left (m - 4) r.1) (λ r. (1 ≤ m) × Left (m - 1) r.1)
          (load_word reader name 4 z) _ (load_word-Left 4 m z l)
          (λ r (h, (s, a, g)).
            Ends-mono (λ q. Left (m - 4) q.1) (λ q. (1 ≤ m) × Left (m - 1) q.1)
              (lift (int_or_error reader name (to_signed r.0)) r.1)
              (λ q (t, b, f). (omega (arith, h), (t, b, omega (arith, h, f))))
              (int_ends (m - 4) (to_signed r.0) r.1 (s, a, g)))

    pub Stops-int : (m : ℕ) → Stops m (load_int reader name)
    Stops-int m z l =
        Ends-mono (λ r. (1 ≤ m) × Left (m - 1) r.1) (λ r. Left m r.1) (load_int reader name z)
          (λ r (h, (s, a, g)). (s, a, omega arith)) (load_int-Left m z l)

    checks_end : (b c : Bool) (msg : String) → (Outcome.◌>>◌ (defined b) (error_if c msg)) ≢ no_fuel
    checks_end true true msg q = cc
    checks_end true false msg q = cc
    checks_end false c msg q = cc

    pub Stops-newvector : (m n e : ℕ) → Stops m (lift (newvector n e))
    unfolding newvector
    Stops-newvector m n e = Stops-lift m (newvector n e) (checks_end _ _ _)

    Stops-number : (m : ℕ) → Stops m (load_number reader name)
    unfolding load_number
    Stops-number m = Stops-word 8 m

    Stops-string_of : (m size : ℕ) → Stops m (string_of reader name size)
    Stops-string_of m zero z l = l
    Stops-string_of m (suc len) z l =
        Stops-bind m (load_block reader name (suc len)) _ (Stops-block (suc len) m)
          (λ b y left. left) z l

    Stops-string : (m : ℕ) → Stops m (load_string reader name)
    unfolding load_string
    Stops-string m = Stops-bind m (load_word reader name 4) _ (Stops-word 4 m) (Stops-string_of m)

    pub Stops-vector : (m : ℕ) → Stops m (load_vector reader name)
    unfolding load_vector
    Stops-vector m = Stops-bind m (load_int reader name) _ (Stops-int m) (λ n.
        Stops-bind m (lift (newvector n 4)) _ (Stops-newvector m n 4) (λ u.
          Stops-bind m (load_block reader name (n * 4)) _ (Stops-block (n * 4) m)
            (λ b y left. left)))

    pub Stops-array :
        {A : Type 0} (m e : ℕ) (load : Loader (Zio D) A)
        → Stops m load
        → Stops m (load_array reader name e load)
    unfolding load_array
    Stops-array m e load s = Stops-bind m (load_int reader name) _ (Stops-int m) (λ n.
        Stops-bind m (lift (newvector n e)) _ (Stops-newvector m n e) (λ u. Stops-each m n load s))

    Stops-constant_of : (m : ℕ) (t : ℤ) → Stops m (constant_of reader name t)
    Stops-constant_of m (pos zero) z l = l
    Stops-constant_of m (pos (suc zero)) z l =
        Stops-bind m (load_char reader name) _ (Stops-char m) (λ b y left. left) z l
    Stops-constant_of m (pos (suc (suc zero))) z l = l
    Stops-constant_of m (pos (suc (suc (suc zero)))) z l =
        Stops-bind m (load_number reader name) _ (Stops-number m) (λ b y left. left) z l
    Stops-constant_of m (pos (suc (suc (suc (suc zero))))) z l =
        Stops-bind m (load_string reader name) _ (Stops-string m) (λ s. string_end s) z l
      where
        string_end : (s : Option Bytes) → Stops m (lift (string_constant reader name s))
        string_end none y left = tt
        string_end (some s) y left = left
    Stops-constant_of m (pos (suc (suc (suc (suc (suc t)))))) z l = l
    Stops-constant_of m (negsuc t) z l = l

    pub Stops-constant : (m : ℕ) → Stops m (load_constant reader name)
    unfolding load_constant
    Stops-constant m = Stops-bind m (load_char reader name) _ (Stops-char m) (Stops-constant_of m)

    pub Stops-upvalue : (m : ℕ) → Stops m (load_upvalue reader name)
    unfolding load_upvalue
    Stops-upvalue m =
        Stops-bind m (load_byte reader name) _ (Stops-byte m)
          (λ a. Stops-bind m (load_byte reader name) _ (Stops-byte m) (λ b y left. left))

    Stops-locvar : (m : ℕ) → Stops m (load_locvar reader name)
    unfolding load_locvar
    Stops-locvar m = Stops-bind m (load_string reader name) _ (Stops-string m) (λ v.
        Stops-bind m (load_int reader name) _ (Stops-int m)
          (λ a. Stops-bind m (load_int reader name) _ (Stops-int m) (λ b y left. left)))

    Stops-names : (m n : ℕ) (us : List Upvaldesc) → Stops m (load_names reader name n us)
    unfolding load_names
    Stops-names m zero us z l = l
    Stops-names m (suc n) [] z l =
        Stops-bind m (load_string reader name) _ (Stops-string m) (λ s y left. tt) z l
    Stops-names m (suc n) (u ∷ us) z l =
        Stops-bind m (load_string reader name) _ (Stops-string m)
          (λ s.
            Stops-bind m (load_names reader name n us) _ (Stops-names m n us) (λ r y left. left))
          z l

    pub Stops-debug : (m : ℕ) (us : List Upvaldesc) → Stops m (load_debug reader name us)
    unfolding load_debug
    Stops-debug m us = Stops-bind m (load_string reader name) _ (Stops-string m) (λ s.
        Stops-bind m (load_vector reader name) _ (Stops-vector m) (λ v.
          Stops-bind m (load_array reader name 12 (load_locvar reader name)) _
            (Stops-array m 12 (load_locvar reader name) (Stops-locvar m))
            (λ w. Stops-bind m (load_int reader name) _ (Stops-int m) (λ n.
              Stops-bind m (load_names reader name n us) _ (Stops-names m n us)
                (λ r y left. left)))))

-- ===== src/Chunk/Parts.antt =====
-- Lua/src/lundump.cpp: what Lua/src/ldump.cpp dumps of a part is loaded as that part.
use addons_terraria_tshock.Common.{
  ℕ, suc, ◌-◌, ◌*◌, ◌/◌, false, ◌^◌, ◌<◌, ◌==◌, lt→ltb, ge→ltb, Option, none, some, List, [], ◌∷◌,
  ◌++◌, map, length, take, flatten, length-append, take-append_left, drop-append_left, All, ◌≡◌,
  refl, ap, subst, ◌∙◌, arith, inl, inr,
}
use mathlib.Core.List.{append-nil}
use addons_terraria_tshock.Common.Int.{
  ℤ, pos, negsuc, to_signed, to_unsigned, to_signed-to_unsigned, to_unsigned-lt,
}
use addons_terraria_tshock.Common.Memory.{
  to_bytes, from_bytes, to_array, from_array, length-to_bytes, length-to_array, from_bytes-to_bytes,
  from_array-to_array,
}
use addons_terraria_tshock.Common.Outcome.{ok}
use addons_terraria_tshock.Zio.{Zio}
use addons_terraria_tshock.Zio.Reading.{Ahead, lua_z_read_lem}
use addons_terraria_tshock.Chunk.{Bytes, Constant, nil, boolean, number, string, Upvaldesc}
use addons_terraria_tshock.Chunk.Dump.{
  Blocks, for_each, dump_char, dump_int, dump_number, dump_vector, dump_string, dump_constant,
  dump_upvalue,
}
use addons_terraria_tshock.Chunk.Loader.{Loader}
use addons_terraria_tshock.Chunk.Load.{
  newvector, to_char, to_byte, load_block, load_word, load_char, load_byte, load_int, load_number,
  load_string, load_vector, constant_of, load_constant, load_array, load_upvalue,
}
use addons_terraria_tshock.Chunk.Fits.{IsSize, IsString, IsConstant, IsUpvalue}
use addons_terraria_tshock.Chunk.Reads.{
  Takes, Misses, Reads, Reads-check, Reads-pure, Reads-bind, Reads-map, Reads-lift, Reads-value,
  Reads-each,
}

pub newvector_lem : (n e : ℕ) → suc n < 2 ^ 31 → IsSize e n → newvector n e ≡ ok tt
unfolding newvector
newvector_lem n e h l = rw (lt→ltb (suc n) (2 ^ 31) h, ge→ltb ((2 ^ 32 - 3) / e) (suc n) l) refl

module _ {D : Type 0} (reader : D → Option (List ℕ) × D) (name : Bytes) where
  load_block-Takes :
      (b : Bytes) (size : ℕ)
      → length b ≡ size
      → Takes reader name (load_block reader name size) (b ∷ []) b
  unfolding load_block
  load_block-Takes b size h z rest ahead =
      let same : flatten (b ∷ []) ++ rest ≡ b ++ rest =
        ap (λ (t : List ℕ). t ++ rest) (append-nil b) in
      let (y, e, left) =
        lua_z_read_lem D reader z size (b ++ rest) (subst (Ahead D reader z) same ahead) in
      (
        y,
        rw (e, take-append_left size b rest h, none_missing) refl,
        elim left [
          | inl a ↦ subst (Ahead D reader y) (drop-append_left size b rest h) a
          | inr short ↦ absurd (omega (arith, length-append b rest))
        ],
      )
    where
      none_missing : (size - length (b ++ rest)) ≡ 0
      none_missing = omega (arith, length-append b rest)

  load_block-Misses :
      (b : Bytes) (size : ℕ)
      → length b ≡ size
      → Misses reader name (load_block reader name size) (b ∷ [])
  unfolding load_block
  load_block-Misses b size h z s t ahead e l =
      let (y, f, left) = lua_z_read_lem D reader z size s ahead in rw (f, missing) refl
    where
      missing : (size - length s == 0) ≡ false
      missing = ground (arith, ap length (e ∙ append-nil b), length-append s t)

  pub load_block-Reads :
      (b : Bytes) (size : ℕ)
      → length b ≡ size
      → Reads reader name (load_block reader name size) (b ∷ []) b
  load_block-Reads b size h = (load_block-Takes b size h, load_block-Misses b size h)

  load_word-Reads :
      (size x : ℕ)
      → Reads reader name
          (load_word reader name size)
          (to_bytes size x ∷ [])
          (from_bytes (to_bytes size x))
  unfolding load_word
  load_word-Reads size x =
      Reads-map reader name (load_block reader name size) from_bytes (to_bytes size x ∷ [])
        (to_bytes size x) (load_block-Reads (to_bytes size x) size (length-to_bytes size x))

  -- The char that a value is cast to.
  abbrev char_of : ℤ → ℤ
  char_of y = to_char (from_bytes (to_bytes 1 (to_unsigned y)))

  pub load_char-Reads :
      (y : ℤ) → Reads reader name (load_char reader name) (dump_char y) (char_of y)
  unfolding load_char dump_char
  load_char-Reads y =
      Reads-map reader name (load_word reader name 1) to_char (to_bytes 1 (to_unsigned y) ∷ []) _
        (load_word-Reads 1 (to_unsigned y))

  pub load_byte-Reads :
      (n : ℕ) → n < 2 ^ 8 → Reads reader name (load_byte reader name) (dump_char (pos n)) n
  unfolding load_byte
  load_byte-Reads n h =
      Reads-value reader name (load_byte reader name) (dump_char (pos n))
        (to_byte (char_of (pos n))) n (ground arith)
        (Reads-map reader name (load_char reader name) to_byte (dump_char (pos n)) (char_of (pos n))
          (load_char-Reads (pos n)))

  load_number-Reads :
      (n : ℕ) → n < 2 ^ 64 → Reads reader name (load_number reader name) (dump_number n) n
  unfolding load_number dump_number
  load_number-Reads n h =
      Reads-value reader name (load_word reader name 8) (to_bytes 8 n ∷ []) _ n
        (from_bytes-to_bytes 8 n h) (load_word-Reads 8 n)

  pub load_int-Reads :
      (n : ℕ) → n < 2 ^ 31 → Reads reader name (load_int reader name) (dump_int (pos n)) n
  unfolding load_int dump_int
  load_int-Reads n h =
      Reads-check reader name (load_word reader name 4) _ (to_bytes 4 (to_unsigned (pos n)) ∷ []) _
        n (rw same refl) (load_word-Reads 4 (to_unsigned (pos n)))
    where
      same : to_signed (from_bytes (to_bytes 4 (to_unsigned (pos n)))) ≡ pos n
      same =
          ap to_signed (from_bytes-to_bytes 4 (to_unsigned (pos n)) (to_unsigned-lt (pos n)))
          ∙ to_signed-to_unsigned (pos n) h

  pub load_string-Reads :
      (s : Option Bytes)
      → IsString s
      → Reads reader name (load_string reader name) (dump_string s) s
  unfolding load_string dump_string
  load_string-Reads none h =
      Reads-bind reader name (load_word reader name 4) _ (to_bytes 4 0 ∷ []) [] 0 none
        (load_word-Reads 4 0) (Reads-pure reader name none)
  load_string-Reads (some s) h =
      Reads-bind reader name (load_word reader name 4) _ (to_bytes 4 (suc (length s)) ∷ [])
        ((s ++ (0 ∷ [])) ∷ []) (suc (length s)) (some s)
        (Reads-value reader name (load_word reader name 4) (to_bytes 4 (suc (length s)) ∷ []) _
          (suc (length s)) (from_bytes-to_bytes 4 (suc (length s)) h)
          (load_word-Reads 4 (suc (length s))))
        (Reads-value reader name (λ z. _) ((s ++ (0 ∷ [])) ∷ []) _ (some s)
          (ap some (take-append_left (length s) s (0 ∷ []) refl))
          (Reads-map reader name (load_block reader name (suc (length s)))
            (λ (t : Bytes). some (take (length s) t)) ((s ++ (0 ∷ [])) ∷ []) (s ++ (0 ∷ []))
            (load_block-Reads (s ++ (0 ∷ [])) (suc (length s))
              (omega (arith, length-append s (0 ∷ []))))))

  pub load_vector-Reads :
      (b : List ℕ)
      → All (λ (x : ℕ). x < 2 ^ 32) b
      → IsSize 4 (length b)
      → Reads reader name (load_vector reader name) (dump_vector b) b
  unfolding load_vector dump_vector
  load_vector-Reads b small h =
      Reads-bind reader name (load_int reader name) _ (dump_int (pos (length b)))
        (to_array 4 b ∷ []) (length b) b (load_int-Reads (length b) (omega (arith, h)))
        (Reads-lift reader name (newvector (length b) 4) _ (to_array 4 b ∷ []) tt b
          (newvector_lem (length b) 4 (omega (arith, h)) h)
          (Reads-value reader name (λ z. _) (to_array 4 b ∷ []) _ b (from_array-to_array 4 b small)
            (Reads-map reader name (load_block reader name (length b * 4)) (from_array 4 (length b))
              (to_array 4 b ∷ []) (to_array 4 b)
              (load_block-Reads (to_array 4 b) (length b * 4) (length-to_array 4 b)))))

  pub load_array-Reads :
      {A B : Type 0} (e : ℕ) (load : Loader (Zio D) B) (dump : A → Blocks) (f : A → B)
      (Q : A → Type 0)
      → ((x : A) → Q x → Reads reader name load (dump x) (f x))
      → (xs : List A) → All Q xs
      → suc (length xs) < 2 ^ 31
      → IsSize e (length xs)
      → Reads reader name
          (load_array reader name e load)
          (dump_int (pos (length xs)) ++ for_each dump xs)
          (map f xs)
  unfolding load_array
  load_array-Reads e load dump f Q each xs q small h =
      Reads-bind reader name (load_int reader name) _ (dump_int (pos (length xs)))
        (for_each dump xs) (length xs) (map f xs) (load_int-Reads (length xs) (omega arith))
        (Reads-lift reader name (newvector (length xs) e) _ (for_each dump xs) tt (map f xs)
          (newvector_lem (length xs) e small h) (Reads-each reader name load dump f Q each xs q))

  tagged :
      (t : ℕ) (cs : Blocks) (c : Constant)
      → Reads reader name (constant_of reader name (char_of (pos t))) cs c
      → Reads reader name (load_constant reader name) (dump_char (pos t) ++ cs) c
  unfolding load_constant
  tagged t cs c r =
      Reads-bind reader name (load_char reader name) (constant_of reader name) (dump_char (pos t))
        cs (char_of (pos t)) c (load_char-Reads (pos t)) r

  pub load_constant-Reads :
      (c : Constant)
      → IsConstant c
      → Reads reader name (load_constant reader name) (dump_constant c) c
  unfolding dump_constant dump_char
  load_constant-Reads nil h = tagged 0 [] nil (Reads-pure reader name nil)
  load_constant-Reads (boolean (pos n)) h = tagged 1 (dump_char (pos n)) (boolean (pos n)) (
      Reads-value reader name (λ z. _) (dump_char (pos n)) (boolean (char_of (pos n)))
        (boolean (pos n)) (ap boolean (ground arith))
        (Reads-map reader name (load_char reader name) boolean (dump_char (pos n)) (char_of (pos n))
          (load_char-Reads (pos n))))
  load_constant-Reads (boolean (negsuc n)) h =
      tagged 1 (dump_char (negsuc n)) (boolean (negsuc n)) (
        Reads-value reader name (λ z. _) (dump_char (negsuc n)) (boolean (char_of (negsuc n)))
          (boolean (negsuc n)) (ap boolean (ground arith))
          (Reads-map reader name (load_char reader name) boolean (dump_char (negsuc n))
            (char_of (negsuc n)) (load_char-Reads (negsuc n))))
  load_constant-Reads (number n) h = tagged 3 (dump_number n) (number n) (
      Reads-map reader name (load_number reader name) number (dump_number n) n
        (load_number-Reads n h))
  load_constant-Reads (string s) h = tagged 4 (dump_string (some s)) (string s) (
      Reads-check reader name (load_string reader name) _ (dump_string (some s)) (some s) (string s)
        refl (load_string-Reads (some s) h))

  pub load_upvalue-Reads :
      (u : Upvaldesc)
      → IsUpvalue u
      → Reads reader name (load_upvalue reader name) (dump_upvalue u) (record u { name = none })
  unfolding load_upvalue dump_upvalue
  load_upvalue-Reads u (_, p, q) =
      Reads-bind reader name (load_byte reader name) _ (dump_char (pos u.instack))
        (dump_char (pos u.idx)) u.instack _ (load_byte-Reads u.instack p)
        (Reads-map reader name (load_byte reader name)
          (λ (i : ℕ). record { name = none; instack = u.instack; idx = i }) (dump_char (pos u.idx))
          u.idx (load_byte-Reads u.idx q))

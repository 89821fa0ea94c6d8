-- ===== src/Object/ChunkId.antt =====
-- Lua/src/lobject.cpp: `luaO_chunkid` fits its buffer.
use addons_terraria_tshock.Common.{
  ℕ, suc, ◌+◌, ◌^◌, ◌≤◌, ◌<◌, leb, ltb, ◌==◌, if◌then◌else◌, Bool-cases, Option-cases, inl, inr,
  List, [], ◌∷◌, ◌++◌, length, take, drop, length-append, length-take, length-drop, drop-append_le,
  ◌≡◌, refl, ap, arith, leb→gt, leb→le, ltb→lt, ltb→ge,
}
use addons_terraria_tshock.Object.{
  rets, pre, post, size_sub, find_newline, literal_id, file_id, string_id, chunkid,
}

-- A C string that fits a buffer of n bytes.
abbrev pub Fits : ℕ → List ℕ → Type 0
Fits n out = (s : List ℕ) × (out ≡ s ++ (0 ∷ [])) × (length s < n)

literal_id-Fits : (name : List ℕ) (n : ℕ) → 15 ≤ n → n < 2 ^ 32 → Fits n (literal_id name n)
unfolding literal_id
literal_id-Fits name n h l = elim (Bool-cases (leb (suc (length name)) n)) [
  | inl e ↦ (name, rw e refl, omega (arith, leb→le _ _ e))
  | inr e ↦ (take (size_sub n 1) name, rw e refl, omega (arith, length-take (size_sub n 1) name))
]

file_id-Fits :
    (name : List ℕ) (n : ℕ) → 15 ≤ n → length name < 2 ^ 31 → n < 2 ^ 32 → Fits n (file_id name n)
unfolding file_id
file_id-Fits name n h k l = elim (Bool-cases (leb (suc (length name)) n)) [
  | inl e ↦ (name, rw e refl, omega (arith, leb→le _ _ e))
  | inr e ↦ (
    rets ++ drop (size_sub (suc (length name)) (size_sub n 3)) name,
    rw e (
        ap (λ (t : List ℕ). rets ++ t)
          (drop-append_le (size_sub (suc (length name)) (size_sub n 3)) name (0 ∷ [])
            (omega (arith, leb→gt _ _ e)))),
    omega (arith, leb→gt _ _ e, length-drop (size_sub (suc (length name)) (size_sub n 3)) name),
  )
]

-- What stands between the quotes.
framed : (n : ℕ) (s : List ℕ) → length s + 12 ≤ n → Fits n (pre ++ s ++ post ++ (0 ∷ []))
framed n s h =
    (pre ++ s ++ post, refl, omega (arith, length-append (pre ++ s) post, length-append pre s))

cut_length :
    (room l : ℕ) (source : List ℕ)
    → length (take (if ltb room l then room else l) source ++ rets) ≤ room + 3
cut_length room l source = elim (Bool-cases (ltb room l)) [
  | inl e ↦ rw e (omega (arith, length-append (take room source) rets, length-take room source))
  | inr e ↦
      rw e (omega (arith, ltb→ge _ _ e, length-append (take l source) rets, length-take l source))
]

string_id-Fits : (source : List ℕ) (n : ℕ) → 15 ≤ n → n < 2 ^ 32 → Fits n (string_id source n)
unfolding string_id
string_id-Fits source n h l = elim (Option-cases (find_newline source)) [
  | inl e ↦ elim (Bool-cases (ltb (length source) (size_sub n 15))) [
    | inl small ↦ rw (e, small) (framed n source (omega (arith, ltb→lt _ _ small)))
    | inr big ↦
        rw (e, big) (framed n _ (omega (arith, cut_length (size_sub n 15) (length source) source)))
  ]
  | inr (nl, e) ↦ rw e (framed n _ (omega (arith, cut_length (size_sub n 15) nl source)))
]

-- For a buffer of 15 bytes or more the name of a chunk is a string, with its zero, that fits it,
-- whatever the source (of less than 2 ^ 31 bytes).
pub chunkid-Fits :
    (source : List ℕ) (n : ℕ)
    → 15 ≤ n
    → n < 2 ^ 32
    → length source < 2 ^ 31
    → Fits n (chunkid source n)
unfolding chunkid
chunkid-Fits [] n h l k = string_id-Fits [] n h l
chunkid-Fits (c ∷ name) n h l k = elim (Bool-cases (c == b'=')) [
  | inl e ↦ rw e (literal_id-Fits name n h l)
  | inr e ↦ elim (Bool-cases (c == b'@')) [
    | inl f ↦ rw (e, f) (file_id-Fits name n h (omega arith) l)
    | inr f ↦ rw (e, f) (string_id-Fits (c ∷ name) n h l)
  ]
]

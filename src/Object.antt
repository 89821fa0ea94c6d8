-- ===== src/Object.antt =====
-- Lua/src/lobject.cpp: the name of a chunk for messages, and the floating byte of a table's size.
pub mod ChunkId
pub mod FloatingByte
pub mod CeilLog
mod Examples
use addons_terraria_tshock.Common.{
  ℕ, zero, suc, ◌+◌, ◌-◌, ◌*◌, ◌/◌, ◌%◌, ◌^◌, bit_and, bit_or, leb, ltb, ◌==◌, if◌then◌else◌,
  Option, none, some, List, [], ◌∷◌, ◌++◌, length, take, drop,
}
use addons_terraria_tshock.Common.Outcome.{Outcome, ok, no_fuel}

-- `strchr(source, '\n')`: how far the first newline is.
unfoldable pub find_newline : List ℕ → Option ℕ
find_newline [] = none
find_newline (c ∷ cs) =
    let rest = find_newline cs in
    if c == 10 then some 0 else elim rest [ none ↦ none | some n ↦ some (suc n) ]

-- RETS, PRE and POS: `...`, `[string "` and `"]`.
abbrev pub rets : List ℕ
rets = b'.' ∷ b'.' ∷ b'.' ∷ []

abbrev pub pre : List ℕ
pre = b'[' ∷ b's' ∷ b't' ∷ b'r' ∷ b'i' ∷ b'n' ∷ b'g' ∷ b' ' ∷ b'"' ∷ []

abbrev pub post : List ℕ
post = b'"' ∷ b']' ∷ []

-- `size_t` subtraction.
abbrev pub size_sub : ℕ → ℕ → ℕ
size_sub a b = (a + 2 ^ 32 - b) % 2 ^ 32

-- The three cases of `luaO_chunkid`, by the first byte of the source, a string without zeros: what is
-- written to `out`. `name` is the source without its first byte.
unfoldable pub literal_id : List ℕ → ℕ → List ℕ
literal_id name bufflen =
    if leb (suc (length name)) bufflen
    then name ++ (0 ∷ [])
    else take (size_sub bufflen 1) name ++ (0 ∷ [])

unfoldable pub file_id : List ℕ → ℕ → List ℕ
file_id name bufflen =
    if leb (suc (length name)) bufflen
    then name ++ (0 ∷ [])
    else rets
      ++ drop (size_sub (suc (length name)) (size_sub bufflen (length rets))) (name ++ (0 ∷ []))

unfoldable pub string_id : List ℕ → ℕ → List ℕ
unfolding find_newline
string_id source bufflen =
    let room = size_sub bufflen 15 in
    let cut = λ (l : ℕ). take (if ltb room l then room else l) source ++ rets in
    pre
    ++ elim (find_newline source) [
      | none ↦ if ltb (length source) room then source else cut (length source)
      | some nl ↦ cut nl
    ]
    ++ post
    ++ (0 ∷ [])

unfoldable pub chunkid : List ℕ → ℕ → List ℕ
unfolding literal_id file_id string_id
chunkid [] bufflen = string_id [] bufflen
chunkid (c ∷ name) bufflen =
    if c == b'='
    then literal_id name bufflen
    else if c == b'@'
    then file_id name bufflen
    else string_id (c ∷ name) bufflen

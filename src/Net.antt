-- ===== src/Net.antt =====
-- What the program uses of Go's packages strings and net: Split, TrimSpace, SplitHostPort and
-- ParseIP. (Both sides that split an address use them: cmd/server/ratelimit/limiter.go and
-- cmd/client/main.go.)
pub mod Ip
use microchat_ai.Prelude.{
  length, map, zero, suc, ℕ, Bool, true, false, ◌&&◌, ◌||◌, not, Option, none, some, List, [], ◌∷◌,
  ◌++◌, ◌==◌, if◌then◌else◌, Bytes, has_prefix, strip,
}
use mathlib.Core.List.{reverse}

unfoldable pub contains_byte : ℕ → Bytes → Bool
contains_byte c [] = false
contains_byte c (b ∷ s) = b == c || contains_byte c s

abbrev cons_head : ℕ → List Bytes → List Bytes
cons_head b [] = (b ∷ []) ∷ []
cons_head b (p ∷ ps) = (b ∷ p) ∷ ps

-- strings.Split at one byte: never empty.
unfoldable pub split : ℕ → Bytes → List Bytes
split c [] = [] ∷ []
split c (b ∷ s) = let rest = split c s in if b == c then [] ∷ rest else cons_head b rest

-- The UTF-8 encodings of the characters of unicode.IsSpace.
abbrev space_encodings : List Bytes
space_encodings =
    (9 ∷ [])
    ∷ (10 ∷ [])
    ∷ (11 ∷ [])
    ∷ (12 ∷ [])
    ∷ (13 ∷ [])
    ∷ (32 ∷ [])
    ∷ (0xc2 ∷ 0x85 ∷ [])
    ∷ (0xc2 ∷ 0xa0 ∷ [])
    ∷ (0xe1 ∷ 0x9a ∷ 0x80 ∷ [])
    ∷ (0xe2 ∷ 0x80 ∷ 0x80 ∷ [])
    ∷ (0xe2 ∷ 0x80 ∷ 0x81 ∷ [])
    ∷ (0xe2 ∷ 0x80 ∷ 0x82 ∷ [])
    ∷ (0xe2 ∷ 0x80 ∷ 0x83 ∷ [])
    ∷ (0xe2 ∷ 0x80 ∷ 0x84 ∷ [])
    ∷ (0xe2 ∷ 0x80 ∷ 0x85 ∷ [])
    ∷ (0xe2 ∷ 0x80 ∷ 0x86 ∷ [])
    ∷ (0xe2 ∷ 0x80 ∷ 0x87 ∷ [])
    ∷ (0xe2 ∷ 0x80 ∷ 0x88 ∷ [])
    ∷ (0xe2 ∷ 0x80 ∷ 0x89 ∷ [])
    ∷ (0xe2 ∷ 0x80 ∷ 0x8a ∷ [])
    ∷ (0xe2 ∷ 0x80 ∷ 0xa8 ∷ [])
    ∷ (0xe2 ∷ 0x80 ∷ 0xa9 ∷ [])
    ∷ (0xe2 ∷ 0x80 ∷ 0xaf ∷ [])
    ∷ (0xe2 ∷ 0x81 ∷ 0x9f ∷ [])
    ∷ (0xe3 ∷ 0x80 ∷ 0x80 ∷ [])
    ∷ []

-- The text after one space at its head, by a table of encodings.
strip_one : List Bytes → Bytes → Option Bytes
strip_one [] s = none
strip_one (e ∷ es) s = if has_prefix s e then some (strip s e) else strip_one es s

-- On fuel: each round drops a byte at least, so the length is enough.
trim_front : List Bytes → ℕ → Bytes → Bytes
unfolding strip_one
trim_front table zero s = s
trim_front table (suc fuel) s = elim (strip_one table s) [
  | none ↦ s
  | some rest ↦ trim_front table fuel rest
]

-- strings.TrimSpace. The end is trimmed backwards, by the encodings backwards.
unfoldable pub trim_space : Bytes → Bytes
unfolding trim_front has_prefix strip
trim_space s = reverse (trim_front (map reverse space_encodings) (length front) (reverse front))
  where
    front : Bytes
    front = trim_front space_encodings (length s) s

-- The parts before and after the last occurrence of a byte.
split_last : ℕ → Bytes → Option (Bytes × Bytes)
split_last c [] = none
split_last c (b ∷ s) = elim (split_last c s) [
  | some (front, back) ↦ some (b ∷ front, back)
  | none ↦ if b == c then some ([], s) else none
]

-- The parts before and after the first occurrence.
split_first : ℕ → Bytes → Option (Bytes × Bytes)
split_first c [] = none
split_first c (b ∷ s) =
    let rest = split_first c s in
    if b == c
    then some ([], s)
    else elim rest [ some (front, back) ↦ some (b ∷ front, back) | none ↦ none ]

-- `[host]:port`, from behind the bracket.
bracketed : Bytes → Option (Bytes × Bytes)
unfolding split_first contains_byte
bracketed s = elim (split_first b']' s) [
  | none ↦ none
  | some (host, []) ↦ none
  | some (host, c ∷ port) ↦
      if c == b':'
        && not (contains_byte b':' port)
        && not (contains_byte b'[' s)
        && not (contains_byte b']' port)
      then some (host, port)
      else none
]

plain : Bytes → Option (Bytes × Bytes)
unfolding split_last contains_byte
plain s = elim (split_last b':' s) [
  | none ↦ none
  | some (host, port) ↦
      if contains_byte b':' host || contains_byte b'[' s || contains_byte b']' s
      then none
      else some (host, port)
]

-- net.SplitHostPort; `none` is an error.
unfoldable pub split_host_port : Bytes → Option (Bytes × Bytes)
unfolding bracketed plain
split_host_port [] = none
split_host_port (c ∷ s) = if c == b'[' then bracketed s else plain (c ∷ s)

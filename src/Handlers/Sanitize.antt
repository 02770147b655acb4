-- ===== src/Handlers/Sanitize.antt =====
-- sanitizeForTerminal. A range over a Go string decodes UTF-8; a byte that starts no valid
-- encoding reads as U+FFFD, which WriteRune encodes in three bytes.
pub mod Safe
use microchat_ai.Prelude.{
  ℕ, zero, suc, ◌-◌, Bool, true, false, ◌&&◌, ◌||◌, List, [], ◌∷◌, ◌++◌, ◌==◌, ltb, leb,
  if◌then◌else◌, Bytes,
}

is_param : ℕ → Bool
is_param c = (leb b'0' c && leb c b'9') || c == b';'

is_letter : ℕ → Bool
is_letter c = (leb b'a' c && leb c b'z') || (leb b'A' c && leb c b'Z')

-- How many bytes `[0-9;]*[a-zA-Z]` takes at the head; 0 if it does not match.
params_length : Bytes → ℕ
unfolding is_param is_letter
params_length [] = 0
params_length (c ∷ s) =
    let rest = params_length s in
    if is_param c then (if rest == 0 then 0 else suc rest) else if is_letter c then 1 else 0

-- How many bytes `\x1b\[[0-9;]*[a-zA-Z]` takes at the head; 0 if it does not match.
unfoldable pub ansi_length : Bytes → ℕ
unfolding params_length
ansi_length [] = 0
ansi_length (c ∷ []) = 0
ansi_length (c ∷ d ∷ s) =
    let rest = params_length s in
    if c == 0x1b && d == b'[' then (if rest == 0 then 0 else suc (suc rest)) else 0

-- ReplaceAllString with the empty text; `skip` bytes of the last match are still to go.
unfoldable pub remove_ansi : ℕ → Bytes → Bytes
unfolding ansi_length
remove_ansi skip [] = []
remove_ansi (suc skip) (c ∷ s) = remove_ansi skip s
remove_ansi zero (c ∷ s) = elim (ansi_length (c ∷ s)) [
  | zero ↦ c ∷ remove_ansi zero s
  | suc n ↦ remove_ansi n s
]

abbrev pub is_tail : ℕ → Bool
is_tail c = leb 0x80 c && leb c 0xbf

-- The second byte of an encoding of three or four bytes: not overlong, no surrogate, in range.
abbrev pub is_second : ℕ → ℕ → Bool
is_second first c =
    if first == 0xe0
    then leb 0xa0 c && leb c 0xbf
    else if first == 0xed
    then leb 0x80 c && leb c 0x9f
    else if first == 0xf0
    then leb 0x90 c && leb c 0xbf
    else if first == 0xf4
    then leb 0x80 c && leb c 0x8f
    else is_tail c

-- How many bytes of a text belong to the character whose first byte is `c`, behind that byte;
-- none if no valid encoding of more than one byte starts there.
unfoldable pub tail_length : ℕ → Bytes → ℕ
tail_length c [] = 0
tail_length c (c1 ∷ []) = if leb 0xc2 c && leb c 0xdf && is_tail c1 then 1 else 0
tail_length c (c1 ∷ c2 ∷ []) =
    if leb 0xc2 c && leb c 0xdf && is_tail c1
    then 1
    else if leb 0xe0 c && leb c 0xef && is_second c c1 && is_tail c2
    then 2
    else 0
tail_length c (c1 ∷ c2 ∷ c3 ∷ s) =
    if leb 0xc2 c && leb c 0xdf && is_tail c1
    then 1
    else if leb 0xe0 c && leb c 0xef && is_second c c1 && is_tail c2
    then 2
    else if leb 0xf0 c && leb c 0xf4 && is_second c c1 && is_tail c2 && is_tail c3
    then 3
    else 0

-- The test of the loop on a character below 128; every other one passes it.
abbrev pub is_kept : ℕ → Bool
is_kept c = leb 32 c || c == 10 || c == 9 || c == 13

-- The loop; `copy` bytes of the current character are still to be written.
unfoldable pub keep_safe : ℕ → Bytes → Bytes
unfolding tail_length
keep_safe copy [] = []
keep_safe (suc copy) (c ∷ s) = c ∷ keep_safe copy s
keep_safe zero (c ∷ s) =
    let rest = keep_safe zero s in
    if ltb c 0x80 then (if is_kept c then c ∷ rest else rest) else elim (tail_length c s) [
      | zero ↦ 0xef ∷ 0xbf ∷ 0xbd ∷ rest
      | suc n ↦ c ∷ keep_safe (suc n) s
    ]

unfoldable pub sanitize_for_terminal : Bytes → Bytes
unfolding remove_ansi keep_safe
sanitize_for_terminal text = keep_safe 0 (remove_ansi 0 text)

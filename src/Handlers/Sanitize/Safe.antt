-- ===== src/Handlers/Sanitize/Safe.antt =====
-- What the sanitised text holds.
use microchat_ai.Prelude.{
  ℕ, zero, suc, ◌≤◌, ◌<◌, ◌≡◌, refl, ◌⊎◌, inl, inr, true, arith, [], ◌∷◌, Bytes, All, Bool-cases,
  if◌then◌else◌,
}
use microchat_ai.Handlers.Sanitize.{
  tail_length, is_kept, keep_safe, remove_ansi, ansi_length, sanitize_for_terminal, is_tail,
  is_second,
}

-- No control character but tab, newline and carriage return.
abbrev pub IsSafe : ℕ → Type 0
IsSafe c = (32 ≤ c) ⊎ ((c ≡ 10) ⊎ ((c ≡ 9) ⊎ (c ≡ 13)))

-- The next bytes of a character.
abbrev Tail : ℕ → Bytes → Type 0
Tail zero s = Unit
Tail (suc n) [] = Unit
Tail (suc n) (c ∷ s) = (32 ≤ c) × Tail n s

is_tail-high : (c : ℕ) → is_tail c ≡ true → 32 ≤ c
is_tail-high c h = ground arith

is_second-high : (first c : ℕ) → is_second first c ≡ true → 32 ≤ c
is_second-high first c h = ground arith

tail_length-Tail : (c : ℕ) (s : Bytes) → Tail (tail_length c s) s
unfolding tail_length
tail_length-Tail c [] = tt
tail_length-Tail c (c1 ∷ []) = ground (arith, is_tail-high c1)
tail_length-Tail c (c1 ∷ c2 ∷ []) =
    ground (arith, is_tail-high c1, is_tail-high c2, is_second-high c c1)
tail_length-Tail c (c1 ∷ c2 ∷ c3 ∷ s) =
    ground (arith, is_tail-high c1, is_tail-high c2, is_tail-high c3, is_second-high c c1)

-- What the loop writes for an ASCII character.
ascii-IsSafe :
    (c : ℕ) (rest : Bytes) → All IsSafe rest → All IsSafe (if is_kept c then c ∷ rest else rest)
ascii-IsSafe c rest h = elim (Bool-cases (is_kept c)) [
  | inl k ↦ ground (arith, h)
  | inr k ↦ ground (arith, h)
]

-- What the loop writes for any other character.
wide-IsSafe :
    (c n : ℕ) (s : Bytes)
    → 32 ≤ c
    → All IsSafe (keep_safe 0 s)
    → All IsSafe (keep_safe n s)
    → All IsSafe
        (elim n [ zero ↦ 0xef ∷ 0xbf ∷ 0xbd ∷ keep_safe 0 s | suc n ↦ c ∷ keep_safe (suc n) s ])
wide-IsSafe c zero s low h t = (inl (omega arith), (inl (omega arith), (inl (omega arith), h)))
wide-IsSafe c (suc n) s low h t = (inl low, t)

keep_safe-IsSafe : (copy : ℕ) (s : Bytes) → Tail copy s → All IsSafe (keep_safe copy s)
unfolding keep_safe
keep_safe-IsSafe zero [] t = tt
keep_safe-IsSafe (suc copy) [] t = tt
keep_safe-IsSafe (suc copy) (c ∷ s) t = (inl t.0, keep_safe-IsSafe copy s t.1)
keep_safe-IsSafe zero (c ∷ s) t = ground (
  arith,
  ascii-IsSafe c (keep_safe 0 s) (keep_safe-IsSafe zero s tt),
  λ (low : 32 ≤ c).
      wide-IsSafe c (tail_length c s) s low (keep_safe-IsSafe zero s tt)
        (keep_safe-IsSafe (tail_length c s) s (tail_length-Tail c s)),
)

-- Whatever the reply of the model is, every byte of the sanitised text is at least 32 or a
-- newline, a tab or a carriage return; so no escape character is left in it.
pub sanitize_for_terminal-IsSafe : (text : Bytes) → All IsSafe (sanitize_for_terminal text)
unfolding sanitize_for_terminal
sanitize_for_terminal-IsSafe text = keep_safe-IsSafe 0 (remove_ansi 0 text) tt

-- A byte of plain text: an ASCII character that is not a control character, or a newline, a tab
-- or a carriage return. DEL counts as plain: the code keeps it.
abbrev IsPlain : ℕ → Type 0
IsPlain c = IsSafe c × (c < 128)

ansi_length-plain : (c : ℕ) (s : Bytes) → IsPlain c → ansi_length (c ∷ s) ≡ 0
unfolding ansi_length
ansi_length-plain c [] h = refl
ansi_length-plain c (d ∷ s) h = ground (arith, h)

remove_ansi-plain : (s : Bytes) → All IsPlain s → remove_ansi 0 s ≡ s
unfolding remove_ansi
remove_ansi-plain [] h = refl
remove_ansi-plain (c ∷ s) h = ground (arith, ansi_length-plain c s h.0, remove_ansi-plain s h.1)

keep_safe-plain : (s : Bytes) → All IsPlain s → keep_safe 0 s ≡ s
unfolding keep_safe
keep_safe-plain [] h = refl
keep_safe-plain (c ∷ s) h = ground (arith, h, keep_safe-plain s h.1)

-- A text of ASCII characters, none of them a control character but newline, tab, carriage return
-- and DEL, is unchanged by sanitizeForTerminal.
sanitize_for_terminal-plain : (text : Bytes) → All IsPlain text → sanitize_for_terminal text ≡ text
unfolding sanitize_for_terminal
sanitize_for_terminal-plain text h =
    ground (arith, remove_ansi-plain text h, keep_safe-plain text h)

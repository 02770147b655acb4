-- ===== src/Prelude/ByteStrings.antt =====
-- Go strings: sequences of bytes, with a decidable equality and the functions of package strings
-- that the program calls.
use Prim.Native.Nat.{ℕ}
use Prim.Native.Char.{code}
use Prim.Native.String.{String}
use mathlib.Core.Path.{◌≡◌, refl, ap₂}
use mathlib.Core.Logic.{ite}
use mathlib.Core.Bool.{Bool, true, false}
use mathlib.Core.List.{List, [], ◌∷◌}
use native.Mathlib.Decide.{ℕ_discrete}

abbrev pub Bytes : Type 0
Bytes = List ℕ

-- The bytes of an ASCII literal.
abbrev pub bytes : String → Bytes
bytes String.[] = []
bytes (String.◌∷◌ c s) = code c ∷ bytes s

dec_cons : {a b : ℕ} {s t : Bytes} → Dec (a ≡ b) → Dec (s ≡ t) → Dec (a ∷ s ≡ b ∷ t)
dec_cons (yes p) (yes q) = yes (ap₂ ◌∷◌ p q)
dec_cons (no p) _ = no (λ e. p (cc))
dec_cons (yes p) (no q) = no (λ e. q (cc))

unfoldable pub Bytes_discrete : Discrete Bytes
unfolding dec_cons ℕ_discrete
Bytes_discrete [] [] = yes refl
Bytes_discrete [] (b ∷ t) = no (λ e. cc)
Bytes_discrete (a ∷ s) [] = no (λ e. cc)
Bytes_discrete (a ∷ s) (b ∷ t) = dec_cons (ℕ_discrete a b) (Bytes_discrete s t)

-- strings.HasPrefix
unfoldable pub has_prefix : Bytes → Bytes → Bool
unfolding ℕ_discrete
has_prefix s [] = true
has_prefix [] (p ∷ ps) = false
has_prefix (c ∷ s) (p ∷ ps) = ite (ℕ_discrete c p) (has_prefix s ps) false

-- the bytes after a prefix of the same length
unfoldable pub strip : Bytes → Bytes → Bytes
strip s [] = s
strip [] (p ∷ ps) = []
strip (c ∷ s) (p ∷ ps) = strip s ps

-- strings.TrimPrefix
unfoldable pub trim_prefix : Bytes → Bytes → Bytes
unfolding has_prefix strip
trim_prefix s p = elim (has_prefix s p) [ true ↦ strip s p | false ↦ s ]

-- ===== src/Prelude/Outcomes.antt =====
-- What a Go call may lead to: a value or an error; and its outcome: a value, a panic (nil dereference, index out of range), or a loop that
-- never ends.
use mathlib.Core.Path.{◌≡◌, refl}
use microchat_ai.Prelude.ByteStrings.{Bytes}

pub data Outcome {ℓ} (A : Type ℓ) : Type ℓ where
  returns : A → Outcome A
  panics diverges : Outcome A

-- A value, or the text of an error.
pub data OrError {ℓ} (A : Type ℓ) : Type ℓ where
  value : A → OrError A
  error : Bytes → OrError A

infixl 5 ◌>>=◌
abbrev pub ◌>>=◌ {ℓ κ} : {A : Type ℓ} {B : Type κ} → Outcome A → (A → Outcome B) → Outcome B
returns a >>= f = f a
panics >>= f = panics
diverges >>= f = diverges

pub >>=-returns {ℓ κ} :
    {A : Type ℓ} {B : Type κ} (m : Outcome A) (f : A → Outcome B) {b : B}
    → (m >>= f) ≡ returns b
    → (a : A) × (m ≡ returns a) × (f a ≡ returns b)
>>=-returns (returns a) f h = (a, refl, h)
>>=-returns panics f h = cc
>>=-returns diverges f h = cc

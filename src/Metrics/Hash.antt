-- ===== src/Metrics/Hash.antt =====
-- cmd/server/metrics.go: hashAPIKey, the label of an API key.
use microchat_ai.Prelude.{
  ℕ, zero, suc, Bytes, [], ◌∷◌, ◌≡◌, ◌+◌, ◌*◌, ◌/◌, ◌%◌, ◌<◌, length, take, ltb, if◌then◌else◌,
  arith, refl, ap, All, ◌↔◌, ◌-◌,
}
use mathlib.Core.Path.{ap₂}

-- A digit of %x.
abbrev pub hex_digit : ℕ → ℕ
hex_digit n = if ltb n 10 then b'0' + n else b'a' + n - 10

unfoldable pub hex : Bytes → Bytes
hex [] = []
hex (c ∷ s) = hex_digit (c / 16) ∷ hex_digit (c % 16) ∷ hex s

-- `sha256` is sha256.Sum256.
unfoldable pub hash_api_key : (Bytes → Bytes) → Bytes → Bytes
unfolding hex
hash_api_key sha256 key = hex (take 8 (sha256 key))

length-hex : (s : Bytes) → length (hex s) ≡ 2 * length s
unfolding hex
length-hex [] = refl
length-hex (c ∷ s) = omega (arith, length-hex s)

hex_digit_inj : (m n : ℕ) → m < 16 → n < 16 → hex_digit m ≡ hex_digit n → m ≡ n
hex_digit_inj m n h k e = ground arith

byte_inj :
    (c d : ℕ)
    → c < 256
    → d < 256
    → hex_digit (c / 16) ≡ hex_digit (d / 16)
    → hex_digit (c % 16) ≡ hex_digit (d % 16)
    → c ≡ d
byte_inj c d h k high low = omega (
  arith,
  hex_digit_inj (c / 16) (d / 16) (omega (arith, h)) (omega (arith, k)) high,
  hex_digit_inj (c % 16) (d % 16) (omega arith) (omega arith) low,
)

hex_inj : (s t : Bytes) → All (λ c. c < 256) s → All (λ c. c < 256) t → hex s ≡ hex t → s ≡ t
unfolding hex
hex_inj [] [] h k e = refl
hex_inj [] (d ∷ t) h k e = cc
hex_inj (c ∷ s) [] h k e = cc
hex_inj (c ∷ s) (d ∷ t) (h, hs) (k, ks) e =
    ap₂ ◌∷◌ (byte_inj c d h k (cc) (cc)) (hex_inj s t hs ks (cc))

take-All : (n : ℕ) (s : Bytes) → All (λ c. c < 256) s → All (λ c. c < 256) (take n s)
take-All zero s h = tt
take-All (suc n) [] h = tt
take-All (suc n) (c ∷ s) (h, hs) = (h, take-All n s hs)

-- Two keys have one label exactly if the first eight bytes of their digests are the same.
hash_api_key_iff :
    (sha256 : Bytes → Bytes)
    → ((key : Bytes) → All (λ c. c < 256) (sha256 key))
    → (j k : Bytes)
    → (hash_api_key sha256 j ≡ hash_api_key sha256 k) ↔ (take 8 (sha256 j) ≡ take 8 (sha256 k))
unfolding hash_api_key
hash_api_key_iff sha256 bytewise j k = (
  λ e.
      hex_inj (take 8 (sha256 j)) (take 8 (sha256 k)) (take-All 8 (sha256 j) (bytewise j))
        (take-All 8 (sha256 k) (bytewise k)) e,
  λ e. ap hex e,
)

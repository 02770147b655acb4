-- ===== src/Client/Metrics/Format.antt =====
-- cmd/client/metrics.go: formatBytes. A float64 holds 53 bits, so a larger number is rounded first;
-- the division by 1024 is exact, and %.1f rounds to the nearest tenth, a tie to the even one.
use microchat_ai.Prelude.{
  ℕ, zero, suc, ℤ, pos, negsuc, Bytes, bytes, ◌++◌, ◌+◌, ◌*◌, ◌/◌, ◌%◌, ◌^◌, ltb, ◌==◌, ◌&&◌, ◌||◌,
  if◌then◌else◌, decimal, decimal_ℤ, ◌≤◌, ◌<◌, arith, lt→ltb, ◌≡◌,
}

-- n / d, rounded to the nearest number, a tie to the even one.
unfoldable pub round_even : ℕ → ℕ → ℕ
round_even d n =
    if ltb d (2 * (n % d)) || (2 * (n % d)) == d && ((n / d) % 2) == 1 then n / d + 1 else n / d

-- float64(n), below 2^64: the least power of two is sought of which the number has fewer than 2^53
-- multiples below it, from `k` on.
unfoldable pub to_float : ℕ → ℕ → ℕ → ℕ
unfolding round_even
to_float zero k n = n
to_float (suc fuel) k n =
    let rest = to_float fuel (suc k) n in
    if ltb n (2 ^ (53 + k)) then round_even (2 ^ k) n * 2 ^ k else rest

-- The tenths of KB.
unfoldable pub tenths : ℕ → ℕ
unfolding to_float
tenths n = round_even 1024 (10 * to_float 11 0 n)

unfoldable pub format_bytes : ℤ → Bytes
unfolding tenths
format_bytes (negsuc n) = decimal_ℤ (negsuc n) ++ bytes " B"
format_bytes (pos n) =
    if ltb n 1024
    then decimal n ++ bytes " B"
    else decimal (tenths n / 10) ++ bytes "." ++ decimal (tenths n % 10) ++ bytes " KB"

round_even_nearest :
    (n : ℕ)
    → (2 * n ≤ 2 * (1024 * round_even 1024 n) + 1024)
      × (2 * (1024 * round_even 1024 n) ≤ 2 * n + 1024)
unfolding round_even
round_even_nearest n = ground arith

round_even_one : (n : ℕ) → round_even 1 n * 1 ≡ n
unfolding round_even
round_even_one n = ground arith

to_float_exact : (n : ℕ) → n < 2 ^ 53 → to_float 11 0 n ≡ n
unfolding to_float round_even
to_float_exact n h = rw (lt→ltb n 9007199254740992 h) (round_even_one n)

-- Below 2^53 bytes, the size that is shown in KB is off by at most half of a tenth.
tenths-nearest :
    (n : ℕ) → n < 2 ^ 53 → (20 * n ≤ 2048 * tenths n + 1024) × (2048 * tenths n ≤ 20 * n + 1024)
unfolding tenths
tenths-nearest n h =
    rw (to_float_exact n h) (
      omega (arith, (round_even_nearest (10 * n)).0),
      omega (arith, (round_even_nearest (10 * n)).1),
    )

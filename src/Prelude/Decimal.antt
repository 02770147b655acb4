-- ===== src/Prelude/Decimal.antt =====
-- Decimal numerals: %d of package fmt, and strconv.Atoi.
use Prim.Native.Nat.{ℕ, zero, suc, ◌+◌, ◌-◌, ◌*◌, ◌/◌, ◌%◌, ◌^◌}
use mathlib.Core.Bool.{◌&&◌}
use mathlib.Core.List.{[], ◌∷◌}
use mathlib.Core.Option.{Option, none, some}
use microchat_ai.Prelude.Tests.{ltb, leb, ◌==◌, if◌then◌else◌}
use microchat_ai.Prelude.ByteStrings.{Bytes}
use microchat_ai.Prelude.Signed.{ℤ, pos, negsuc}

-- The digits of `n` in front of `acc`, on fuel: `n` has fewer than `n + 1` digits above the first.
digits_onto : ℕ → ℕ → Bytes → Bytes
digits_onto zero n acc = acc
digits_onto (suc fuel) n acc =
    let acc' = (b'0' + n % 10) ∷ acc in
    let more = digits_onto fuel (n / 10) acc' in if n / 10 == 0 then acc' else more

unfoldable pub decimal : ℕ → Bytes
unfolding digits_onto
decimal n = digits_onto (suc n) n []

unfoldable pub decimal_ℤ : ℤ → Bytes
unfolding decimal
decimal_ℤ (pos n) = decimal n
decimal_ℤ (negsuc n) = b'-' ∷ decimal (suc n)

-- The value of a numeral of digits, from `acc` on.
parse_digits : ℕ → Bytes → Option ℕ
parse_digits acc [] = some acc
parse_digits acc (c ∷ s) =
    let rest = parse_digits (acc * 10 + (c - b'0')) s in
    if leb b'0' c && leb c b'9' then rest else none

parse_number : Bytes → Option ℕ
unfolding parse_digits
parse_number [] = none
parse_number (c ∷ s) = parse_digits 0 (c ∷ s)

-- What an int of 64 bits holds.
positive : Option ℕ → Option ℤ
positive none = none
positive (some n) = if ltb n (2 ^ 63) then some (pos n) else none

negative : Option ℕ → Option ℤ
negative none = none
negative (some zero) = some (pos 0)
negative (some (suc n)) = if ltb n (2 ^ 63) then some (negsuc n) else none

-- strconv.Atoi; `none` is an error.
unfoldable pub atoi : Bytes → Option ℤ
unfolding parse_number positive negative
atoi [] = none
atoi (c ∷ s) =
    if c == b'-'
    then negative (parse_number s)
    else if c == b'+'
    then positive (parse_number s)
    else positive (parse_number (c ∷ s))

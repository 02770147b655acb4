-- ===== src/Net/Ip.antt =====
-- net.ParseIP, as far as the program reads its result: whether it is an address. Go parses as
-- netip.ParseAddr does and refuses zones.
use microchat_ai.Prelude.{
  ℕ, zero, suc, ◌+◌, ◌-◌, ◌*◌, Bool, true, false, not, ◌&&◌, ◌||◌, [], ◌∷◌, ◌==◌, leb, ltb,
  if◌then◌else◌, Bytes,
}

is_digit : ℕ → Bool
is_digit c = leb b'0' c && leb c b'9'

-- The loop of parseIPv4Fields: the value and the number of the digits of this field, whether a dot may
-- come, and how many dots went by.
ipv4_loop : ℕ → ℕ → ℕ → Bytes → Bool
unfolding is_digit
ipv4_loop val dig_len pos [] = pos == 3 && ltb 0 dig_len
ipv4_loop val dig_len pos (c ∷ s) =
    let on_digit =
      (let val' = val * 10 + (c - b'0') in
        let rest = ipv4_loop val' (suc dig_len) pos s in
        if (dig_len == 1 && val == 0) || ltb 255 val' then false else rest) in
    let on_dot =
      (let rest = ipv4_loop 0 0 (suc pos) s in if dig_len == 0 || pos == 3 then false else rest) in
    if is_digit c then on_digit else if c == b'.' then on_dot else false

unfoldable pub is_ipv4 : Bytes → Bool
unfolding ipv4_loop
is_ipv4 s = ipv4_loop 0 0 0 s

is_hex : ℕ → Bool
unfolding is_digit
is_hex c = is_digit c || (leb b'a' c && leb c b'f') || (leb b'A' c && leb c b'F')

-- The hexadecimal digits at the head, and the rest.
hex_count : Bytes → ℕ
unfolding is_hex
hex_count [] = 0
hex_count (c ∷ s) = let rest = hex_count s in if is_hex c then suc rest else 0

after_hex : Bytes → Bytes
unfolding is_hex
after_hex [] = []
after_hex (c ∷ s) = let rest = after_hex s in if is_hex c then rest else c ∷ s

-- All 16 bytes are there, or an ellipsis fills at least one group.
complete : ℕ → Bool → Bool
complete i ellipsis = if ltb i 16 then ellipsis else not ellipsis

-- The loop of parseIPv6 over its groups, on fuel; `i` bytes are written, and `ellipsis` says whether
-- `::` was met. Each round adds two bytes, so eight rounds are enough.
ipv6_loop : ℕ → ℕ → Bool → Bytes → Bool
unfolding hex_count after_hex complete ipv4_loop
ipv6_loop zero i ellipsis s = false
ipv6_loop (suc fuel) i ellipsis s =
    let n = hex_count s in
    if n == 0 || ltb 4 n then false else elim (after_hex s) [
      | [] ↦ complete (i + 2) ellipsis
      | c ∷ rest ↦
          if c == b'.'
          then (ellipsis || i == 12) && leb (i + 4) 16 && is_ipv4 s && complete (i + 4) ellipsis
          else if c == b':'
          then elim rest [
            | [] ↦ false
            | d ∷ rest' ↦
                if d == b':'
                then if ellipsis then false else elim rest' [
                  | [] ↦ complete (i + 2) true
                  | e ∷ rest'' ↦
                      if leb 16 (i + 2) then false else ipv6_loop fuel (i + 2) true (e ∷ rest'')
                ]
                else if leb 16 (i + 2)
                then false
                else ipv6_loop fuel (i + 2) ellipsis (d ∷ rest')
          ]
          else false
    ]

unfoldable pub is_ipv6 : Bytes → Bool
unfolding ipv6_loop
is_ipv6 [] = false
is_ipv6 (c ∷ []) = false
is_ipv6 (c ∷ d ∷ s) =
    if c == b':' && d == b':'
    then elim s [ [] ↦ true | e ∷ s' ↦ ipv6_loop 8 0 true (e ∷ s') ]
    else ipv6_loop 8 0 false (c ∷ d ∷ s)

-- The first of `.` and `:` decides; a `%` before either, or a zone after the address, is no IP.
parse_kind : Bytes → Bytes → Bool
unfolding is_ipv4 is_ipv6
parse_kind whole [] = false
parse_kind whole (c ∷ s) =
    if c == b'.'
    then is_ipv4 whole
    else if c == b':'
    then is_ipv6 whole
    else if c == b'%'
    then false
    else parse_kind whole s

-- net.ParseIP(s) != nil
unfoldable pub is_ip : Bytes → Bool
unfolding parse_kind
is_ip s = parse_kind s s

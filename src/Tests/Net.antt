-- ===== src/Tests/Net.antt =====
-- Runs of the functions of strings and net.
use microchat_ai.Prelude.{refl, ◌≡◌, true, false, some, none, bytes, [], ◌∷◌}
use microchat_ai.Net.{split, trim_space, split_host_port}
use microchat_ai.Net.Ip.{is_ip}

addresses :
    (is_ip (bytes "192.168.1.1") ≡ true)
    × (is_ip (bytes "1.2.3") ≡ false)
    × (is_ip (bytes "01.2.3.4") ≡ false)
    × (is_ip (bytes "256.2.3.4") ≡ false)
    × (is_ip (bytes "::") ≡ true)
    × (is_ip (bytes "2001:db8::1") ≡ true)
    × (is_ip (bytes "::ffff:1.2.3.4") ≡ true)
    × (is_ip (bytes "1:2:3:4:5:6:7:8") ≡ true)
    × (is_ip (bytes "1:2:3:4:5:6:7:8::") ≡ false)
    × (is_ip (bytes "1::2::3") ≡ false)
    × (is_ip (bytes "fe80::1%eth0") ≡ false)
    × (is_ip (bytes "12345::") ≡ false)
    × (is_ip (bytes "unknown") ≡ false)
unfolding is_ip
addresses = (refl, refl, refl, refl, refl, refl, refl, refl, refl, refl, refl, refl, refl)

splits :
    (split_host_port (bytes "localhost:4000") ≡ some (bytes "localhost", bytes "4000"))
    × (split_host_port (bytes "[::1]:80") ≡ some (bytes "::1", bytes "80"))
    × (split_host_port (bytes "::1:80") ≡ none)
    × (split_host_port (bytes "127.0.0.1") ≡ none)
    × (split_host_port (bytes "[::1]") ≡ none)
unfolding split_host_port
splits = (refl, refl, refl, refl, refl)

trims :
    (trim_space (bytes "  a b ") ≡ bytes "a b")
    × (trim_space (9 ∷ 0xc2 ∷ 0xa0 ∷ 65 ∷ 0xe2 ∷ 0x80 ∷ 0x83 ∷ []) ≡ bytes "A")
    × (split b',' (bytes "a,,b") ≡ bytes "a" ∷ [] ∷ bytes "b" ∷ [])
unfolding trim_space split
trims = (refl, refl, refl)

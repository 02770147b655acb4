-- ===== src/RateLimit/ExtractIp.antt =====
-- ExtractIP of cmd/server/ratelimit/limiter.go.
use microchat_ai.Prelude.{Bytes, List, [], ◌∷◌, Option, none, some, if◌then◌else◌}
use microchat_ai.Net.{split, trim_space, split_host_port}
use microchat_ai.Net.Ip.{is_ip}

abbrev host_of : Bytes → Option (Bytes × Bytes) → Bytes
host_of remote_addr none = remote_addr
host_of remote_addr (some (host, port)) = host

remote_ip : Bytes → Bytes
remote_ip remote_addr = host_of remote_addr (split_host_port remote_addr)

-- The first of the forwarded addresses, if it is one.
forwarded_ip : List Bytes → Option Bytes
forwarded_ip [] = none
forwarded_ip (first ∷ others) = let ip = trim_space first in if is_ip ip then some ip else none

abbrev or_remote : Bytes → Option Bytes → Bytes
or_remote remote_addr none = remote_ip remote_addr
or_remote remote_addr (some ip) = ip

unfoldable pub extract_ip : Bytes → Bytes → Bytes
unfolding forwarded_ip remote_ip
extract_ip remote_addr [] = remote_ip remote_addr
extract_ip remote_addr (c ∷ forwarded_for) =
    or_remote remote_addr (forwarded_ip (split b',' (c ∷ forwarded_for)))

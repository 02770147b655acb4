-- ===== src/Client/Metrics.antt =====
-- cmd/client/metrics.go. The counters are int64, kept as their bit patterns; the twelve fields of
-- the Go struct stand as four for each of session, lifetime and message.
pub mod Sums
pub mod Format
use microchat_ai.Prelude.{none, some, zero, suc, ℕ, ◌+◌, Option, ◌%◌, ◌^◌, plus_64}

pub record Totals : Type 0 where
  pub payload_bytes_in : ℕ
  pub payload_bytes_out : ℕ
  pub wire_bytes_in : ℕ
  pub wire_bytes_out : ℕ

pub record Metrics : Type 0 where
  pub session : Totals
  pub lifetime : Totals
  pub msg : Totals

abbrev pub zeros : Totals
zeros = record {
  payload_bytes_in = 0;
  payload_bytes_out = 0;
  wire_bytes_in = 0;
  wire_bytes_out = 0;
}

abbrev pub add_payload : ℕ → ℕ → Totals → Totals
add_payload out in_ t = record t {
  payload_bytes_out = plus_64 t.payload_bytes_out out;
  payload_bytes_in = plus_64 t.payload_bytes_in in_;
}

unfoldable pub add_payload_bytes : Metrics → ℕ → ℕ → Metrics
add_payload_bytes m out in_ = record {
  session = add_payload out in_ m.session;
  lifetime = add_payload out in_ m.lifetime;
  msg = add_payload out in_ m.msg;
}

abbrev pub add_wire : ℕ → ℕ → Totals → Totals
add_wire out in_ t = record t {
  wire_bytes_out = plus_64 t.wire_bytes_out out;
  wire_bytes_in = plus_64 t.wire_bytes_in in_;
}

unfoldable pub add_wire_bytes : Metrics → ℕ → ℕ → Metrics
add_wire_bytes m out in_ = record {
  session = add_wire out in_ m.session;
  lifetime = add_wire out in_ m.lifetime;
  msg = add_wire out in_ m.msg;
}

unfoldable pub get_session_totals : Metrics → Totals
get_session_totals m = m.session

unfoldable pub get_lifetime_totals : Metrics → Totals
get_lifetime_totals m = m.lifetime

-- The getters give the bytes that went out, and those that came in.
unfoldable pub get_session_payload_totals : Metrics → ℕ × ℕ
get_session_payload_totals m = (m.session.payload_bytes_out, m.session.payload_bytes_in)

unfoldable pub get_lifetime_payload_totals : Metrics → ℕ × ℕ
get_lifetime_payload_totals m = (m.lifetime.payload_bytes_out, m.lifetime.payload_bytes_in)

unfoldable pub get_session_wire_totals : Metrics → ℕ × ℕ
get_session_wire_totals m = (m.session.wire_bytes_out, m.session.wire_bytes_in)

unfoldable pub get_lifetime_wire_totals : Metrics → ℕ × ℕ
get_lifetime_wire_totals m = (m.lifetime.wire_bytes_out, m.lifetime.wire_bytes_in)

unfoldable pub get_message_totals_and_reset : Metrics → Metrics × Totals
get_message_totals_and_reset m = (record m { msg = zeros }, m.msg)

unfoldable pub reset_session_metrics : Metrics → Metrics
reset_session_metrics m = record m { session = zeros; msg = zeros }

-- What HandleRPC is told of, with the length on the wire; a length is never negative.
pub data RpcStats : Type 0 where
  out_payload in_payload in_header in_trailer : ℕ → RpcStats
  other_stats : RpcStats

abbrev if_positive : Metrics → ℕ → Metrics → Metrics
if_positive m zero m' = m
if_positive m (suc n) m' = m'

unfoldable pub handle_rpc : Metrics → RpcStats → Metrics
unfolding add_wire_bytes
handle_rpc m (out_payload n) = add_wire_bytes m n 0
handle_rpc m (in_payload n) = add_wire_bytes m 0 n
handle_rpc m (in_header n) = if_positive m n (add_wire_bytes m 0 n)
handle_rpc m (in_trailer n) = if_positive m n (add_wire_bytes m 0 n)
handle_rpc m other_stats = m

-- byteTracker, after the call: the sizes of the request and of the reply, 0 for a value that is no
-- message.
unfoldable pub byte_tracker : Metrics → Option ℕ → Option ℕ → Metrics
unfolding add_payload_bytes
byte_tracker m request reply = add_payload_bytes m (size_or_zero request) (size_or_zero reply)
  where
    size_or_zero : Option ℕ → ℕ
    size_or_zero none = 0
    size_or_zero (some n) = n

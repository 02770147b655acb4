-- ===== src/Client/Metrics/Sums.antt =====
-- The counters are sums over what happened since the last reset.
use microchat_ai.Prelude.{
  ℕ, zero, suc, none, some, refl, Option, Bool, List, ◌∷◌, true, [], ◌<◌, false, ◌++◌, ◌^◌, ◌≡◌,
  if◌then◌else◌, arith, ◌∙◌, plus_64,
}
use microchat_ai.Client.Metrics.{
  other_stats, Metrics, RpcStats, Totals, byte_tracker, handle_rpc, out_payload, zeros,
  reset_session_metrics, in_payload, add_payload_bytes, get_message_totals_and_reset, in_header,
  add_wire_bytes, in_trailer,
}

pub data Traffic : Type 0 where
  exchanges : Option ℕ → Option ℕ → Traffic
  transfers : RpcStats → Traffic
  clears : Traffic
  shows : Traffic

unfoldable pub apply : Metrics → Traffic → Metrics
apply m (exchanges request reply) = byte_tracker m request reply
apply m (transfers stats) = handle_rpc m stats
apply m clears = reset_session_metrics m
apply m shows = (get_message_totals_and_reset m).0

unfoldable pub apply_all : Metrics → List Traffic → Metrics
unfolding apply
apply_all m [] = m
apply_all m (event ∷ more) = apply_all (apply m event) more

abbrev size_of : Option ℕ → ℕ
size_of none = 0
size_of (some n) = n

abbrev wire_in : RpcStats → ℕ
wire_in (out_payload n) = 0
wire_in (in_payload n) = n
wire_in (in_header n) = n
wire_in (in_trailer n) = n
wire_in other_stats = 0

abbrev wire_out : RpcStats → ℕ
wire_out (out_payload n) = n
wire_out _ = 0

-- The bytes of one event, as an unbounded number: what comes in and what goes out.
abbrev pub bytes_of : Traffic → Totals
bytes_of (exchanges request reply) = record zeros {
  payload_bytes_in = size_of reply;
  payload_bytes_out = size_of request;
}
bytes_of (transfers stats) = record zeros {
  wire_bytes_in = wire_in stats;
  wire_bytes_out = wire_out stats;
}
bytes_of clears = zeros
bytes_of shows = zeros

-- The sum, field by field, modulo 2^64.
abbrev pub plus : Totals → Totals → Totals
plus a b = record {
  payload_bytes_in = plus_64 a.payload_bytes_in b.payload_bytes_in;
  payload_bytes_out = plus_64 a.payload_bytes_out b.payload_bytes_out;
  wire_bytes_in = plus_64 a.wire_bytes_in b.wire_bytes_in;
  wire_bytes_out = plus_64 a.wire_bytes_out b.wire_bytes_out;
}

abbrev pub sum : Totals → List Traffic → Totals
sum t [] = t
sum t (event ∷ more) = sum (plus t (bytes_of event)) more

abbrev is_clear : Traffic → Bool
is_clear clears = true
is_clear _ = false

-- The events that the session counters are about.
abbrev pub since_clear : List Traffic → List Traffic → List Traffic
since_clear seen [] = seen
since_clear seen (clears ∷ more) = since_clear [] more
since_clear seen (event ∷ more) = since_clear (seen ++ event ∷ []) more

-- Every counter is below 2^64.
abbrev pub IsWord : Totals → Type 0
IsWord t =
    (t.payload_bytes_in < 2 ^ 64)
    × (t.payload_bytes_out < 2 ^ 64)
    × (t.wire_bytes_in < 2 ^ 64)
    × (t.wire_bytes_out < 2 ^ 64)

-- An event adds its bytes to the lifetime counters, and to the session counters unless it clears
-- them.
apply_lem :
    (m : Metrics) (event : Traffic)
    → IsWord m.lifetime
    → IsWord m.session
    → ((apply m event).lifetime ≡ plus m.lifetime (bytes_of event))
      × ((apply m event).session
          ≡ (if is_clear event then zeros else plus m.session (bytes_of event)))
unfolding apply byte_tracker handle_rpc add_payload_bytes add_wire_bytes reset_session_metrics
    get_message_totals_and_reset
apply_lem m (exchanges none none) w v = ground (arith, w, v)
apply_lem m (exchanges none (some n)) w v = ground (arith, w, v)
apply_lem m (exchanges (some k) none) w v = ground (arith, w, v)
apply_lem m (exchanges (some k) (some n)) w v = ground (arith, w, v)
apply_lem m (transfers (out_payload n)) w v = ground (arith, w, v)
apply_lem m (transfers (in_payload n)) w v = ground (arith, w, v)
apply_lem m (transfers (in_header zero)) w v = ground (arith, w, v)
apply_lem m (transfers (in_header (suc n))) w v = ground (arith, w, v)
apply_lem m (transfers (in_trailer zero)) w v = ground (arith, w, v)
apply_lem m (transfers (in_trailer (suc n))) w v = ground (arith, w, v)
apply_lem m (transfers other_stats) w v = ground (arith, w, v)
apply_lem m clears w v = ground (arith, w, v)
apply_lem m shows w v = ground (arith, w, v)

sum-append :
    (t : Totals) (seen : List Traffic) (event : Traffic)
    → sum t (seen ++ event ∷ []) ≡ plus (sum t seen) (bytes_of event)
sum-append t [] event = refl
sum-append t (e ∷ seen) event = sum-append (plus t (bytes_of e)) seen event

plus-IsWord : (a b : Totals) → IsWord (plus a b)
plus-IsWord a b = (omega arith, omega arith, omega arith, omega arith)

sum-IsWord : (t : Totals) (events : List Traffic) → IsWord t → IsWord (sum t events)
sum-IsWord t [] w = w
sum-IsWord t (e ∷ events) w = sum-IsWord (plus t (bytes_of e)) events (plus-IsWord t (bytes_of e))

zeros-IsWord : IsWord zeros
zeros-IsWord = (omega arith, omega arith, omega arith, omega arith)

lifetime-apply_all :
    (events : List Traffic) (m : Metrics)
    → IsWord m.lifetime
    → IsWord m.session
    → (apply_all m events).lifetime ≡ sum m.lifetime events
unfolding apply_all
lifetime-apply_all [] m w v = refl
lifetime-apply_all (e ∷ events) m w v =
    let (same, session) = apply_lem m e w v in
    rw (← same) (
      lifetime-apply_all events (apply m e) (rw same (plus-IsWord m.lifetime (bytes_of e)))
        (rw session (next-IsWord m.session e)))
  where
    next-IsWord :
        (t : Totals) (e : Traffic) → IsWord (if is_clear e then zeros else plus t (bytes_of e))
    next-IsWord t clears = zeros-IsWord
    next-IsWord t (exchanges a b) = plus-IsWord t (bytes_of (exchanges a b))
    next-IsWord t (transfers a) = plus-IsWord t (bytes_of (transfers a))
    next-IsWord t shows = plus-IsWord t (bytes_of shows)

session-step :
    (m : Metrics) (seen : List Traffic) (e : Traffic)
    → IsWord m.lifetime
    → m.session ≡ sum zeros seen
    → is_clear e ≡ false
    → (apply m e).session ≡ sum zeros (seen ++ e ∷ [])
session-step m seen e w h c =
    (apply_lem m e w (rw h (sum-IsWord zeros seen zeros-IsWord))).1
    ∙ rw (c, h, sum-append zeros seen e) refl

lifetime-IsWord :
    (m : Metrics) (seen : List Traffic) (e : Traffic)
    → IsWord m.lifetime
    → m.session ≡ sum zeros seen
    → IsWord (apply m e).lifetime
lifetime-IsWord m seen e w h =
    rw ((apply_lem m e w (rw h (sum-IsWord zeros seen zeros-IsWord))).0)
      (plus-IsWord m.lifetime (bytes_of e))

session-apply_all :
    (events seen : List Traffic) (m : Metrics)
    → IsWord m.lifetime
    → m.session ≡ sum zeros seen
    → (apply_all m events).session ≡ sum zeros (since_clear seen events)
unfolding apply_all
session-apply_all [] seen m w h = h
session-apply_all ((exchanges a b) ∷ events) seen m w h =
    session-apply_all events (seen ++ (exchanges a b) ∷ []) (apply m (exchanges a b))
      (lifetime-IsWord m seen (exchanges a b) w h) (session-step m seen (exchanges a b) w h refl)
session-apply_all ((transfers a) ∷ events) seen m w h =
    session-apply_all events (seen ++ (transfers a) ∷ []) (apply m (transfers a))
      (lifetime-IsWord m seen (transfers a) w h) (session-step m seen (transfers a) w h refl)
session-apply_all (shows ∷ events) seen m w h =
    session-apply_all events (seen ++ shows ∷ []) (apply m shows) (lifetime-IsWord m seen shows w h)
      (session-step m seen shows w h refl)
session-apply_all (clears ∷ events) seen m w h =
    session-apply_all events [] (apply m clears) (lifetime-IsWord m seen clears w h)
      (apply_lem m clears w (rw h (sum-IsWord zeros seen zeros-IsWord))).1

-- From a new client, whatever it sends and receives: the lifetime counters are the sums over all
-- events, and the session counters those over the events since the last /clear, modulo 2^64.
pub apply_all-sum :
    (events : List Traffic)
    → let m = apply_all (record { session = zeros; lifetime = zeros; msg = zeros }) events in
      (m.lifetime ≡ sum zeros events) × (m.session ≡ sum zeros (since_clear [] events))
apply_all-sum events = (
  lifetime-apply_all events (record { session = zeros; lifetime = zeros; msg = zeros }) zeros-IsWord
      zeros-IsWord,
  session-apply_all events [] (record { session = zeros; lifetime = zeros; msg = zeros })
      zeros-IsWord refl,
)

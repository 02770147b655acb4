-- ===== src/Client/Main.antt =====
-- cmd/client/main.go: main, with its flags and the start of the session.
use microchat_ai.Prelude.{none, some, Option, Bytes, bytes, List, [], ◌∷◌, Bool, ◌||◌, ℕ, false}
use microchat_ai.Client.Metrics.{zeros}
use microchat_ai.Client.Chat.{
  Client, Service, Reply, replied, refused, broken, Shown, saw, start_chat, parse_model, connect,
}

-- The flags that the user may give, with their defaults.
pub record Flags : Type 0 where
  pub server_addr : Bytes
  pub model : Bytes
  pub metrics : Bool
  pub metrics_detail : Bool
  pub metrics_total : Bool

abbrev pub default_flags : Flags
default_flags = record {
  server_addr = bytes "localhost:4000";
  model = bytes "gemini";
  metrics = false;
  metrics_detail = false;
  metrics_total = false;
}

abbrev pub new_client : Flags → Client
new_client flags = record {
  session_id = [];
  model = parse_model flags.model;
  message_index = 0;
  metrics = record { session = zeros; lifetime = zeros; msg = zeros };
  displays = flags.metrics || flags.metrics_detail || flags.metrics_total;
}

-- startSession, from the reply on.
unfoldable pub start_session : Client → Reply Bytes → Option Client
start_session c (replied id) = some (record c { session_id = id })
start_session c (refused status) = none
start_session c broken = none

-- What main ends with: an exit with the code 1, or the end of the loop.
pub data Ended (S : Type 0) : Type 0 where
  exits : Ended S
  chatted : Client → S → List Shown → Ended S

module _ {S : Type 0} (service : Service S) where
  abbrev with_session : Option Client → S → List Bytes → Ended S
  with_session none s lines = exits
  with_session (some c) s lines =
      let (c', s', shown) = start_chat service c s lines in chatted c' s' shown

  abbrev connected : Flags → Option Bytes → S → List Bytes → Ended S
  connected flags (some e) s lines = exits
  connected flags none s lines =
      let (s', events, reply) = service.start_session s in
      with_session (start_session (saw (new_client flags) events) reply) s' lines

  -- `attempt_connect` is the error of an attempt, if it fails.
  unfoldable pub main : Flags → Bytes → (ℕ → Option Bytes) → S → List Bytes → Ended S
  unfolding start_session
  main flags [] attempt_connect s lines = exits
  main flags (c ∷ api_key) attempt_connect s lines =
      connected flags (connect attempt_connect).0 s lines

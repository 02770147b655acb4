-- ===== src/LoadTest/User.antt =====
-- cmd/loadtest/main.go: runUser. What it does, in order, from what it meets: the files, the gRPC
-- library, the server and the clock.
pub mod Bounded
use microchat_ai.Prelude.{
  OrError, value, error, ℕ, ℤ, zero, suc, Bool, true, false, String, none, some, Option, Bytes,
  bytes, List, [], ◌∷◌, ◌++◌, ◌%◌, Outcome, returns, panics, length, get_elem?, if◌then◌else◌,
  ◌>>=◌, true, String,
}
use microchat_ai.LoadTest.{LoadTestConfig, Event, success, failure}

-- The root certificates that a connection trusts: those of a PEM text, any certificate at all, or
-- those of the system.
pub data Credentials : Type 0 where
  custom_roots : Bytes → Credentials
  any_certificate : Credentials
  system_roots : Credentials

-- A call of Chat; `authorization` are the values under that key of the metadata.
pub record ChatCall : Type 0 where
  pub authorization : List Bytes
  pub session_id : Bytes
  pub model : ℤ
  pub message : Bytes

-- What a user meets. `append_certs` is AppendCertsFromPEM, `new_client` the error of
-- grpc.NewClient; `done` says whether the time of the test is over at the round `i`, and `chat` is
-- the answer of the server in that round, with its latency.
pub record World : Type 0 where
  pub read_file : Bytes → OrError Bytes
  pub append_certs : Bytes → Bool
  pub new_client : Bytes → Credentials → Option Bytes
  pub start_session : List Bytes → OrError Bytes
  pub done : ℕ → Bool
  pub chat : ℕ → ChatCall → OrError ℕ

-- What a user does: a call of Chat, an event recorded, a sleep in milliseconds.
pub data Action : Type 0 where
  calls : ChatCall → Action
  records : Event → Action
  sleeps : ℕ → Action

abbrev pub programming_messages : List Bytes
programming_messages =
    bytes "Explain the difference between goroutines and threads in Go."
    ∷ bytes "How do I implement a binary search algorithm in Python?"
    ∷ bytes "What's the best way to handle errors in Go?"
    ∷ bytes "Show me how to create a REST API endpoint in Go."
    ∷ bytes "Explain Docker containers and their benefits for development."
    ∷ bytes "How do I optimize database queries for better performance?"
    ∷ bytes "What are the principles of clean code architecture?"
    ∷ bytes "How do I implement JWT authentication in a web API?"
    ∷ []

abbrev at : Option Bytes → Outcome Bytes
at none = panics
at (some message) = returns message

-- programmingMessages[i%len(programmingMessages)]
unfoldable pub message_of : ℕ → Outcome Bytes
message_of i = at (get_elem? programming_messages (i % length programming_messages))

module _ (w : World) (config : LoadTestConfig) where
  abbrev parsed_roots : Bytes → Bool → OrError Credentials
  parsed_roots pem true = value (custom_roots pem)
  parsed_roots pem false = error (bytes "failed to parse CA certificate")

  abbrev read_roots : OrError Bytes → OrError Credentials
  read_roots (error e) = error (bytes "failed to read CA certificate: " ++ e)
  read_roots (value pem) = parsed_roots pem (w.append_certs pem)

  unfoldable pub create_tls_credentials_with_ca : OrError Credentials
  create_tls_credentials_with_ca = read_roots (w.read_file config.ca_cert_path)

  abbrev credentials_for : Bytes → OrError Credentials
  credentials_for [] = value (if config.skip_tls_verify then any_certificate else system_roots)
  credentials_for (c ∷ path) = create_tls_credentials_with_ca

  -- The first block of runUser.
  unfoldable pub credentials : OrError Credentials
  unfolding create_tls_credentials_with_ca
  credentials = credentials_for config.ca_cert_path

  abbrev pub bearer : Bytes
  bearer = bytes "Bearer " ++ config.api_key

  -- AppendToOutgoingContext adds a value to those of the context of the session.
  abbrev pub call_of : ℤ → Bytes → Bytes → ChatCall
  call_of model id message = record {
    authorization = bearer ∷ bearer ∷ [];
    session_id = id;
    model = model;
    message = message;
  }

  -- What follows a call: after an error, `continue` skips the sleep.
  abbrev pub after_call : OrError ℕ → List Action → List Action
  after_call (error e) rest = records (failure (bytes "chat_error: " ++ e)) ∷ rest
  after_call (value latency) rest = records (success latency) ∷ sleeps 120 ∷ rest

  -- The loop over the messages, with `left` to go.
  unfoldable pub send_messages : ℤ → Bytes → ℕ → ℕ → Outcome (List Action)
  unfolding message_of
  send_messages model id zero i = returns []
  send_messages model id (suc left) i = if w.done i then returns [] else (do
    message ← message_of i
    rest ← send_messages model id left (suc i)
    let call = call_of model id message
    returns (calls call ∷ after_call (w.chat i call) rest))

  abbrev gives_up : String → Bytes → Outcome (List Action)
  gives_up what e = returns (records (failure (bytes what ++ e)) ∷ [])

  abbrev pub in_session : ℤ → OrError Bytes → Outcome (List Action)
  in_session model (error e) = gives_up "start_session_error: " e
  in_session model (value id) = send_messages model id config.messages_per_user 0

  abbrev pub connected : ℤ → Option Bytes → Outcome (List Action)
  connected model (some e) = gives_up "connection_error: " e
  connected model none = in_session model (w.start_session (bearer ∷ []))

  abbrev pub with_credentials : ℤ → OrError Credentials → Outcome (List Action)
  with_credentials model (error e) = gives_up "tls_setup_error: " e
  with_credentials model (value creds) = connected model (w.new_client config.server_address creds)

  unfoldable pub run_user : ℤ → Outcome (List Action)
  unfolding send_messages credentials
  run_user model = with_credentials model credentials

-- The events that a user records.
unfoldable pub events_of : List Action → List Event
events_of [] = []
events_of (records event ∷ more) = event ∷ events_of more
events_of (calls call ∷ more) = events_of more
events_of (sleeps ms ∷ more) = events_of more

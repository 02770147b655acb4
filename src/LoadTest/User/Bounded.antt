-- ===== src/LoadTest/User/Bounded.antt =====
-- What one user of the load test does.
use microchat_ai.Prelude.{
  OrError, value, error, ℕ, ℤ, zero, suc, none, some, List, [], ◌∷◌, ◌≤◌, ◌≡◌, refl, length,
  Outcome, returns, arith, All, get_elem?, Bytes, Bool-cases, inl, inr, ◌%◌, get_elem?_of_lt,
  Option,
}
use microchat_ai.LoadTest.{LoadTestConfig}
use microchat_ai.LoadTest.User.{
  World, Action, calls, records, sleeps, run_user, send_messages, message_of, programming_messages,
  bearer, call_of, after_call, events_of, Credentials, credentials, in_session, with_credentials,
  connected,
}

-- A session that does not start is one event.
abbrev pub most_events : ℕ → ℕ
most_events zero = 1
most_events (suc n) = suc n

module _ (w : World) (config : LoadTestConfig) (model : ℤ) where
  -- A call is in the session that the server gave for the API key, with that key as its token, for
  -- the model of the test, and with one of the messages of the list.
  abbrev pub IsOwn : Action → Type 0
  IsOwn (calls call) =
      (w.start_session (bearer w config ∷ []) ≡ value call.session_id)
      × (get_elem? call.authorization 0 ≡ some (bearer w config))
      × (call.model ≡ model)
      × ((i : ℕ) × (get_elem? programming_messages i ≡ some call.message))
  IsOwn (records event) = Unit
  IsOwn (sleeps ms) = Unit

  abbrev pub IsOwnRun : ℕ → Outcome (List Action) → Type 0
  IsOwnRun most o =
      (actions : List Action) × (o ≡ returns actions)
      × (length (events_of actions) ≤ most)
      × All IsOwn actions

  message_of-returns :
      (i : ℕ)
      → (message : Bytes) × (message_of i ≡ returns message)
        × (get_elem? programming_messages (i % 8) ≡ some message)
  unfolding message_of
  message_of-returns i =
      let (message, e) = get_elem?_of_lt programming_messages (i % 8) (omega arith) in
      (message, rw e refl, e)

  after_call-IsOwn :
      (left : ℕ) (answer : OrError ℕ) (rest : List Action)
      → length (events_of rest) ≤ left
      → All IsOwn rest
      → (length (events_of (after_call w config answer rest)) ≤ suc left)
        × All IsOwn (after_call w config answer rest)
  unfolding events_of
  after_call-IsOwn left (error e) rest few own = (omega (arith, few), (tt, own))
  after_call-IsOwn left (value latency) rest few own = (omega (arith, few), (tt, (tt, own)))

  send_messages-IsOwnRun :
      (id : Bytes) (left i : ℕ)
      → w.start_session (bearer w config ∷ []) ≡ value id
      → IsOwnRun left (send_messages w config model id left i)
  unfolding send_messages events_of
  send_messages-IsOwnRun id zero i s = ([], refl, omega arith, tt)
  send_messages-IsOwnRun id (suc left) i s = elim (Bool-cases (w.done i)) [
    | inl over ↦ ([], rw over refl, omega arith, tt)
    | inr going ↦
        let (message, sent, listed) = message_of-returns i in
        let (rest, ran, few, own) = send_messages-IsOwnRun id left (suc i) s in
        let call = call_of w config model id message in
        let (few', own') = after_call-IsOwn left (w.chat i call) rest few own in
        (
          calls call ∷ after_call w config (w.chat i call) rest,
          rw (going, sent, ran) refl,
          few',
          ((s, refl, refl, (i % 8, listed)), own'),
        )
  ]

  in_session-IsOwnRun :
      (reply : OrError Bytes)
      → w.start_session (bearer w config ∷ []) ≡ reply
      → IsOwnRun (most_events config.messages_per_user) (in_session w config model reply)
  unfolding events_of
  in_session-IsOwnRun (error e) s = (_, refl, ground arith, (tt, tt))
  in_session-IsOwnRun (value id) s =
      let (actions, ran, few, own) = send_messages-IsOwnRun id config.messages_per_user 0 s in
      (actions, ran, ground arith, own)

  connected-IsOwnRun :
      (refused : Option Bytes)
      → IsOwnRun (most_events config.messages_per_user) (connected w config model refused)
  unfolding events_of
  connected-IsOwnRun (some e) = (_, refl, ground arith, (tt, tt))
  connected-IsOwnRun none = in_session-IsOwnRun (w.start_session (bearer w config ∷ [])) refl

  with_credentials-IsOwnRun :
      (creds : OrError Credentials)
      → IsOwnRun (most_events config.messages_per_user) (with_credentials w config model creds)
  unfolding events_of
  with_credentials-IsOwnRun (error e) = (_, refl, ground arith, (tt, tt))
  with_credentials-IsOwnRun (value creds) =
      connected-IsOwnRun (w.new_client config.server_address creds)

  -- A user of the load test comes to an end, and records at most as many events as it has messages
  -- to send, or one if it has none; each of its calls is in the session that the server gave for
  -- the API key, with that key as its token, for the model of the test, and with a message of the
  -- list.
  pub run_user-IsOwnRun : IsOwnRun (most_events config.messages_per_user) (run_user w config model)
  unfolding run_user
  run_user-IsOwnRun = with_credentials-IsOwnRun (credentials w config)

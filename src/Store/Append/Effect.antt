-- ===== src/Store/Append/Effect.antt =====
-- The error that AppendMessage reports, and the histories that it leaves.
use microchat_ai.Prelude.{
  ℕ, ◌+◌, ◌≡◌, Bool, true, not, ◌&&◌, Option, none, some, List, [], ◌∷◌, ◌++◌, arith, inl, inr, ite,
  pos, ◌<ℤ◌, leb_ℤ, ltb_ℤ, if◌then◌else◌, length, take, Bytes, Bytes_discrete, returns, Bool-cases,
}
use mathlib.Core.List.{append-nil}
use microchat_ai.GoMap.{get, has, get-put, get_of_not-has}
use microchat_ai.Session.{
  Role, Message, Session, message_size, total_size, get_session_size-total_size,
}
use microchat_ai.Store.{
  SessionStore, AppendError, invalid_session_id, message_limit_exceeded,
  session_size_limit_exceeded, is_valid_session, append_to_session, append_message,
  update_session_order, get_messages,
}
use microchat_ai.Store.Order.{mem}
use microchat_ai.Store.Invariant.{IsValid}
use microchat_ai.Store.Evict.{evict_many, excess, limits, limits-evict_many}
use microchat_ai.Store.Evict.Gone.{get-evict_many}
use microchat_ai.Store.Append.{ensured, written}
use microchat_ai.Store.Append.Result.{entry, append_message-ensured, append_message-refused}

-- The error in terms of the history that the caller can read.
abbrev pub expected_error : SessionStore → Bytes → Role → Bytes → Option AppendError
expected_error s id role text =
    if is_valid_session s id
    then if leb_ℤ s.max_messages_per_session (pos (length (get_messages s id)))
      then some (message_limit_exceeded s.max_messages_per_session)
      else if ltb_ℤ s.max_session_size_bytes
          (pos (total_size (get_messages s id) + message_size role text))
      then some (session_size_limit_exceeded s.max_session_size_bytes)
      else none
    else some invalid_session_id

-- Whether the append evicts the session `j`: `id` is new, and `j` is among the least recently used
-- sessions that are too many.
abbrev pub evicts : SessionStore → Bytes → Bytes → Bool
evicts s id j =
    is_valid_session s id && not (has s.sessions id) && mem (take (excess s) s.session_order) j

abbrev added : Option AppendError → Message → List Message
added none msg = msg ∷ []
added (some e) msg = []

abbrev pub expected_history : SessionStore → ℕ → Bytes → Role → Bytes → Bytes → List Message
expected_history s now id role text j =
    ite (Bytes_discrete id j)
      (get_messages s id ++ added (expected_error s id role text) (written s now id role text))
      (if evicts s id j then [] else get_messages s j)

pub limits-ensured :
    (s : SessionStore) (now : ℕ) (id : Bytes) → limits (ensured s now id) ≡ limits s
unfolding ensured
limits-ensured s now id = ground (arith, limits-evict_many (excess s) s)

get_messages-append_to_session :
    (t : SessionStore) (now : ℕ) (id : Bytes) (role : Role) (text : Bytes) (session : Session)
    (j : Bytes)
    → get t.sessions id ≡ some session
    → let r = append_to_session t now id role text session in
      get_messages r.0 j
      ≡ ite
          (Bytes_discrete id j)
          (session.messages ++ added r.1 (written t now id role text))
          (get_messages t j)
unfolding append_to_session update_session_order get_messages
get_messages-append_to_session t now id role text session j e = ground (
  arith,
  append-nil session.messages,
  get-put t.sessions id j (record {
    messages = session.messages ++ written t now id role text ∷ [];
    last_active = now;
  }),
)

get_messages-ensured :
    (s : SessionStore) (now : ℕ) (id j : Bytes)
    → is_valid_session s id ≡ true
    → get_messages (ensured s now id) j
      ≡ ite
          (Bytes_discrete id j)
          (get_messages s id)
          (if evicts s id j then [] else get_messages s j)
unfolding ensured get_messages
get_messages-ensured s now id j reg = ground (
  arith,
  get-put (evict_many (excess s) s).sessions id j (record { messages = []; last_active = now }),
  get-evict_many (excess s) s j,
  get_of_not-has s.sessions id,
)

module _ (s : SessionStore) (now : ℕ) (id : Bytes) (role : Role) (text : Bytes) (v : IsValid s)
    (p : pos 0 <ℤ s.max_sessions) where
  error-append_to_session :
      is_valid_session s id ≡ true
      → (append_to_session (ensured s now id) now id role text (entry s now id).session).1
        ≡ expected_error s id role text
  unfolding append_to_session
  error-append_to_session reg = ground (
    arith,
    limits-ensured s now id,
    (entry s now id).same,
    get_session_size-total_size (entry s now id).session,
  )

  -- On a valid store with a positive limit on sessions, the error of AppendMessage: one for an id
  -- that is not registered, else one for a history that has the maximal number of messages, else
  -- one for a size that with the new message exceeds the limit, else none.
  pub append_message-error :
      (r : SessionStore × Option AppendError)
      → append_message s now id role text ≡ returns r
      → r.1 ≡ expected_error s id role text
  append_message-error r e = elim (Bool-cases (is_valid_session s id)) [
    | inl reg ↦ cc (append_message-ensured s now id role text v p reg, error-append_to_session reg)
    | inr unknown ↦ ground (arith, append_message-refused s now id role text v p unknown)
  ]

  get_messages-append_to_session-ensured :
      (j : Bytes)
      → is_valid_session s id ≡ true
      → get_messages
          (append_to_session (ensured s now id) now id role text (entry s now id).session).0
          j
        ≡ expected_history s now id role text j
  get_messages-append_to_session-ensured j reg = ground (
    arith,
    get_messages-append_to_session (ensured s now id) now id role text (entry s now id).session j
        (entry s now id).found,
    error-append_to_session reg,
    get_messages-ensured s now id j reg,
    (entry s now id).same,
  )

  -- On a valid store with a positive limit on sessions, the histories after AppendMessage: that of
  -- its session has the message at its end if there is no error, and is as before if there is one;
  -- every other is as before, or empty if its session was evicted to make room.
  pub get_messages-append_message :
      (r : SessionStore × Option AppendError)
      → append_message s now id role text ≡ returns r
      → (j : Bytes) → get_messages r.0 j ≡ expected_history s now id role text j
  unfolding get_messages
  get_messages-append_message r e j = elim (Bool-cases (is_valid_session s id)) [
    | inl reg ↦ cc (
      append_message-ensured s now id role text v p reg,
      get_messages-append_to_session-ensured j reg,
    )
    | inr unknown ↦ ground (
      arith,
      append_message-refused s now id role text v p unknown,
      append-nil (get_messages s id),
    )
  ]

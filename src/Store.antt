-- ===== src/Store.antt =====
-- cmd/server/session_store.go: the session store. Each method runs under the store's lock, so it
-- is a function of the store; time.Now() is an argument.
pub mod Order
pub mod Invariant
pub mod Evict
pub mod Append
pub mod Cleanup
pub mod History
use microchat_ai.Prelude.{
  ℕ, zero, suc, ◌+◌, ◌%◌, ◌^◌, Bool, true, false, Option, none, some, List, [], ◌∷◌, ◌++◌, map, ite,
  ℤ, pos, ◌-ℤ◌, leb_ℤ, ltb_ℤ, if◌then◌else◌, length, Bytes, Bytes_discrete, Outcome, returns,
  panics, diverges, ◌>>=◌,
}
use microchat_ai.GoMap.{GoMap, get, put, delete, has}
use microchat_ai.Session.{
  formatted_string, Role, Message, Session, role_string, message_size, get_session_size,
}

pub record SessionStore : Type 0 where
  pub sessions : GoMap Session
  pub valid_sessions : GoMap Bool
  pub idle_timeout : ℤ
  pub max_sessions : ℤ
  pub max_messages_per_session : ℤ
  pub max_session_size_bytes : ℤ
  pub session_order : List Bytes
  pub total_sessions_created : ℕ

unfoldable pub new_session_store : ℤ → ℤ → ℤ → ℤ → SessionStore
new_session_store idle_timeout max_sessions max_messages_per_session max_session_size_bytes =
    record {
      sessions = [];
      valid_sessions = [];
      idle_timeout = idle_timeout;
      max_sessions = max_sessions;
      max_messages_per_session = max_messages_per_session;
      max_session_size_bytes = max_session_size_bytes;
      session_order = [];
      total_sessions_created = 0;
    }

-- The counter is an int64, kept as its bit pattern.
unfoldable pub register_session : SessionStore → Bytes → SessionStore
register_session s session_id = record s {
  valid_sessions = put s.valid_sessions session_id true;
  total_sessions_created = (s.total_sessions_created + 1) % 2 ^ 64;
}

-- A missing key reads as false.
abbrev read_flag : Option Bool → Bool
read_flag none = false
read_flag (some b) = b

unfoldable pub is_valid_session : SessionStore → Bytes → Bool
unfolding get
is_valid_session s session_id = read_flag (get s.valid_sessions session_id)

evict_first : SessionStore → List Bytes → SessionStore
evict_first s [] = s
evict_first s (oldest_session_id ∷ rest) = record s {
  session_order = rest;
  sessions = delete s.sessions oldest_session_id;
  valid_sessions = delete s.valid_sessions oldest_session_id;
}

unfoldable pub evict_oldest_session : SessionStore → SessionStore
unfolding evict_first
evict_oldest_session s = evict_first s s.session_order

-- The first occurrence goes.
unfoldable pub remove_first : Bytes → List Bytes → List Bytes
remove_first session_id [] = []
remove_first session_id (id ∷ ids) =
    ite (Bytes_discrete id session_id) ids (id ∷ remove_first session_id ids)

unfoldable pub update_session_order : SessionStore → Bytes → SessionStore
unfolding remove_first
update_session_order s session_id = record s {
  session_order = remove_first session_id s.session_order ++ session_id ∷ [];
}

pub data AppendError : Type 0 where
  invalid_session_id : AppendError
  message_limit_exceeded session_size_limit_exceeded : ℤ → AppendError

-- `for len(s.sessions) >= s.maxSessions { s.evictOldestSession() }`, on fuel. A round that finds
-- the order empty changes nothing, so a loop that has not ended when every entry of the order is
-- gone never ends.
unfoldable pub evict_to_limit : ℕ → SessionStore → Outcome SessionStore
evict_to_limit zero s = diverges
evict_to_limit (suc fuel) s =
    let rest = evict_to_limit fuel (evict_oldest_session s) in
    if leb_ℤ s.max_sessions (pos (length s.sessions)) then rest else returns s

-- The creation of a missing session.
unfoldable pub ensure_session : SessionStore → ℕ → Bytes → Outcome SessionStore
ensure_session s now session_id = if has s.sessions session_id then returns s else do
  s ← evict_to_limit (suc (length s.session_order)) s
  returns (record s {
    sessions = put s.sessions session_id (record { messages = []; last_active = now });
    session_order = s.session_order ++ session_id ∷ [];
  })

-- The two tests of AppendMessage on the entry of the map.
abbrev pub too_many : SessionStore → Session → Bool
too_many s session = leb_ℤ s.max_messages_per_session (pos (length session.messages))

abbrev pub too_large : SessionStore → Session → Role → Bytes → Bool
too_large s session role text =
    ltb_ℤ s.max_session_size_bytes (pos (get_session_size session + message_size role text))

-- The rest of AppendMessage, with `session` the entry of the map.
unfoldable pub append_to_session :
    SessionStore → ℕ → Bytes → Role → Bytes → Session → SessionStore × Option AppendError
append_to_session s now session_id role text session =
    if too_many s session
    then (s, some (message_limit_exceeded s.max_messages_per_session))
    else if too_large s session role text
    then (s, some (session_size_limit_exceeded s.max_session_size_bytes))
    else (
      update_session_order
          (record s {
            sessions =
                put s.sessions session_id
                  (record { messages = session.messages ++ message ∷ []; last_active = now });
          })
          session_id,
      none,
    )
  where
    message : Message
    message = record { role = role; text = text; timestamp = now }

-- A missing entry would be a nil pointer.
abbrev append_found :
    SessionStore
    → ℕ
    → Bytes
    → Role
    → Bytes
    → Option Session
    → Outcome (SessionStore × Option AppendError)
append_found s now session_id role text none = panics
append_found s now session_id role text (some session) =
    returns (append_to_session s now session_id role text session)

unfoldable pub append_message :
    SessionStore → ℕ → Bytes → Role → Bytes → Outcome (SessionStore × Option AppendError)
append_message s now session_id role text =
    if is_valid_session s session_id
    then (do
      s ← ensure_session s now session_id
      append_found s now session_id role text (get s.sessions session_id))
    else returns (s, some invalid_session_id)

abbrev messages_of : Option Session → List Message
messages_of none = []
messages_of (some session) = session.messages

unfoldable pub get_messages : SessionStore → Bytes → List Message
get_messages s session_id = messages_of (get s.sessions session_id)

unfoldable pub get_formatted_messages : SessionStore → Bytes → List Bytes
get_formatted_messages s session_id = map formatted_string (get_messages s session_id)

unfoldable pub get_session_count : SessionStore → ℕ
get_session_count s = length s.sessions

unfoldable pub get_total_sessions_created : SessionStore → ℕ
get_total_sessions_created s = s.total_sessions_created

-- LastActive stands as its time, which the code formats as a text.
pub record SessionInfo : Type 0 where
  pub id : Bytes
  pub message_count : ℕ
  pub size_bytes : ℕ
  pub last_active : ℕ

abbrev pub session_info : Bytes × Session → SessionInfo
session_info (session_id, session) = record {
  id = session_id;
  message_count = length session.messages;
  size_bytes = get_session_size session;
  last_active = session.last_active;
}

unfoldable pub get_all_sessions_info : SessionStore → List SessionInfo
get_all_sessions_info s = map session_info s.sessions

-- llm.Message
pub record LlmMessage : Type 0 where
  pub role : Bytes
  pub text : Bytes

abbrev pub llm_format : Message → LlmMessage
llm_format msg = record { role = role_string msg.role; text = msg.text }

unfoldable pub get_messages_as_llm_format : SessionStore → Bytes → List LlmMessage
get_messages_as_llm_format s session_id = map llm_format (get_messages s session_id)

-- session.LastActive.Before(cutoff)
abbrev pub is_idle : ℤ → Session → Bool
is_idle cutoff session = ltb_ℤ (pos session.last_active) cutoff

unfoldable pub idle_ids : ℤ → GoMap Session → List Bytes
idle_ids cutoff [] = []
idle_ids cutoff ((session_id, session) ∷ m) =
    let rest = idle_ids cutoff m in if is_idle cutoff session then session_id ∷ rest else rest

unfoldable pub remove_session : SessionStore → Bytes → SessionStore
remove_session s session_id = record s {
  sessions = delete s.sessions session_id;
  valid_sessions = delete s.valid_sessions session_id;
  session_order = remove_first session_id s.session_order;
}

unfoldable pub remove_sessions : SessionStore → List Bytes → SessionStore
remove_sessions s [] = s
remove_sessions s (session_id ∷ ids) = remove_sessions (remove_session s session_id) ids

unfoldable pub cleanup_idle_sessions : SessionStore → ℕ → SessionStore
cleanup_idle_sessions s now = remove_sessions s (idle_ids (pos now -ℤ s.idle_timeout) s.sessions)

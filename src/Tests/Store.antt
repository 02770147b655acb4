-- ===== src/Tests/Store.antt =====
-- Runs of the session store.
use microchat_ai.Store.Order.{mem}
use microchat_ai.GoMap.{put, has, get, delete}
use microchat_ai.Prelude.{
  List, [], ◌∷◌, ◌≡◌, refl, pos, returns, diverges, Bytes, bytes, arith, subst, Bytes_discrete,
  Option, false, some, none, if◌then◌else◌, true, ℕ, ◌-ℤ◌, ℕ_discrete,
}
use microchat_ai.Session.{user, get_session_size, role_string, Role, Message, Session, add_sizes}
use microchat_ai.Store.{
  SessionStore, new_session_store, append_message, is_valid_session, register_session,
  ensure_session, evict_to_limit, append_to_session, update_session_order, get_messages,
  AppendError, invalid_session_id, cleanup_idle_sessions, evict_oldest_session, remove_first,
  remove_sessions, idle_ids, remove_session,
}
use microchat_ai.Store.History.{
  Call, registers, appends, run, IsSound, run-new_session_store-IsSound, cleans, IsUnused,
  register_session-IsUnused, step,
}
use microchat_ai.Store.Append.Lru.{session_order-append_message}
use microchat_ai.Store.Evict.{evict_to_limit-diverges}
use microchat_ai.Store.Append.Effect.{get_messages-append_message, append_message-error}
use microchat_ai.Store.Cleanup.{idle, cleanup_idle_sessions_lem}

abbrev pub a_id : Bytes
a_id = bytes "a"

abbrev pub b_id : Bytes
b_id = bytes "b"

abbrev pub c_id : Bytes
c_id = bytes "c"

abbrev calls : List Call
calls =
    registers a_id
    ∷ registers b_id
    ∷ registers c_id
    ∷ appends 1 a_id user (bytes "x")
    ∷ appends 2 b_id user (bytes "y")
    ∷ []

abbrev pub said : Role → Bytes → ℕ → Message
said role text now = record { role = role; text = text; timestamp = now }

abbrev pub session : Message → Session
session m = record { messages = m ∷ []; last_active = m.timestamp }

-- At most two sessions of three messages and 1000 bytes; three registered ids, the first two with a
-- session.
abbrev pub store_ab : SessionStore
store_ab = record {
  sessions =
      (a_id, session (said user (bytes "x") 1)) ∷ (b_id, session (said user (bytes "y") 2)) ∷ [];
  valid_sessions = (a_id, true) ∷ (b_id, true) ∷ (c_id, true) ∷ [];
  idle_timeout = pos 10;
  max_sessions = pos 2;
  max_messages_per_session = pos 3;
  max_session_size_bytes = pos 1000;
  session_order = a_id ∷ b_id ∷ [];
  total_sessions_created = 3;
}

run-store_ab : run (new_session_store (pos 10) (pos 2) (pos 3) (pos 1000)) calls ≡ returns store_ab
unfolding run step append_message is_valid_session register_session put get has delete
    Bytes_discrete ℕ_discrete ensure_session evict_to_limit append_to_session get_session_size
    add_sizes role_string update_session_order remove_first evict_oldest_session new_session_store
run-store_ab = refl

pub store_ab-IsSound : IsSound store_ab
store_ab-IsSound =
    let (s, e, g) =
      run-new_session_store-IsSound (pos 10) (pos 2) (pos 3) (pos 1000) calls (omega arith) in
    subst IsSound (cc (e, run-store_ab)) g

-- The third session evicts the first.
abbrev pub after_c : SessionStore × Option AppendError
after_c = (
  record store_ab {
    sessions =
        (b_id, session (said user (bytes "y") 2)) ∷ (c_id, session (said user (bytes "z") 3)) ∷ [];
    valid_sessions = (b_id, true) ∷ (c_id, true) ∷ [];
    session_order = b_id ∷ c_id ∷ [];
  },
  none,
)

get_messages-append_message_example : get_messages after_c.0 a_id ≡ []
unfolding append_message is_valid_session Bytes_discrete ensure_session has evict_to_limit
    evict_oldest_session delete put append_to_session get_session_size role_string
    update_session_order mem
get_messages-append_message_example =
    get_messages-append_message store_ab 3 c_id user (bytes "z") store_ab-IsSound.valid
      store_ab-IsSound.positive after_c refl a_id

session_order-append_message_example : after_c.0.session_order ≡ b_id ∷ c_id ∷ []
unfolding append_message is_valid_session Bytes_discrete ensure_session has evict_to_limit
    evict_oldest_session delete put append_to_session get_session_size role_string
    update_session_order
session_order-append_message_example =
    session_order-append_message store_ab c_id store_ab-IsSound.valid store_ab-IsSound.positive 3
      user (bytes "z") after_c.0 refl

abbrev unknown : SessionStore × Option AppendError
unknown = (store_ab, some invalid_session_id)

append_message-error_example : unknown.1 ≡ some invalid_session_id
unfolding append_message is_valid_session Bytes_discrete
append_message-error_example =
    append_message-error store_ab 3 (bytes "d") user (bytes "z") store_ab-IsSound.valid
      store_ab-IsSound.positive unknown refl

run-new_session_store-IsSound_example :
    (s : SessionStore) × (run (new_session_store (pos 10) (pos 2) (pos 3) (pos 1000)) calls
      ≡ returns s)
    × IsSound s
run-new_session_store-IsSound_example =
    run-new_session_store-IsSound (pos 10) (pos 2) (pos 3) (pos 1000) calls (omega arith)

cleanup_idle_sessions_lem_example :
    ((k : Bytes)
      → get (cleanup_idle_sessions store_ab 12).sessions k
        ≡ (if idle (pos 2) (get store_ab.sessions k) then none else get store_ab.sessions k))
    × ((k : Bytes)
        → is_valid_session (cleanup_idle_sessions store_ab 12) k
          ≡ (if idle (pos 2) (get store_ab.sessions k) then false else is_valid_session store_ab k))
    × ((cleanup_idle_sessions store_ab 12).session_order ≡ b_id ∷ [])
unfolding ◌-ℤ◌ get Bytes_discrete
cleanup_idle_sessions_lem_example = cleanup_idle_sessions_lem store_ab 12 store_ab-IsSound.valid

abbrev later : SessionStore
later = record store_ab {
  sessions = (c_id, session (said user (bytes "z") 101)) ∷ [];
  valid_sessions = (c_id, true) ∷ (bytes "d", true) ∷ [];
  session_order = c_id ∷ [];
  total_sessions_created = 4;
}

run-later :
    run store_ab (registers (bytes "d") ∷ cleans 100 ∷ appends 101 c_id user (bytes "z") ∷ [])
    ≡ returns later
unfolding run step append_message is_valid_session register_session put get has delete
    Bytes_discrete ℕ_discrete ensure_session evict_to_limit append_to_session get_session_size
    add_sizes role_string update_session_order remove_first evict_oldest_session new_session_store
    cleanup_idle_sessions remove_sessions idle_ids ◌-ℤ◌ remove_session
run-later = refl

register_session-IsUnused_example : IsUnused later (bytes "d")
unfolding has Bytes_discrete
register_session-IsUnused_example =
    register_session-IsUnused (cleans 100 ∷ appends 101 c_id user (bytes "z") ∷ []) store_ab later
      (bytes "d") store_ab-IsSound refl (ground arith) run-later

evict_to_limit-diverges_example :
    evict_to_limit 5 (record store_ab { max_sessions = pos 0 }) ≡ diverges
evict_to_limit-diverges_example =
    evict_to_limit-diverges 5 (record store_ab { max_sessions = pos 0 }) (omega arith)

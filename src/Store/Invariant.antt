-- ===== src/Store/Invariant.antt =====
-- The invariant of the store: the three structures that track a session agree, and the limits hold.
use microchat_ai.Prelude.{◌≡◌, true, ◌⊎◌, some, [], ℤ, pos, ◌≤ℤ◌, length, Bytes, arith}
use microchat_ai.GoMap.{IsMap, get, has}
use microchat_ai.Session.{Session, get_session_size}
use microchat_ai.Store.{SessionStore, is_valid_session, new_session_store}
use microchat_ai.Store.Order.{mem, IsDistinct}

-- A session that holds a message is within both limits. (One that is just created is empty, also
-- where a limit is negative.)
abbrev pub Fits : ℤ → ℤ → Session → Type 0
Fits max_messages max_size session =
    (session.messages ≡ [])
    ⊎ ((pos (length session.messages) ≤ℤ max_messages)
        × (pos (get_session_size session) ≤ℤ max_size))

pub record IsValid (s : SessionStore) : Type 0 where
  pub is_map : IsMap s.sessions
  pub distinct : IsDistinct s.session_order
  pub tracked : (k : Bytes) → mem s.session_order k ≡ has s.sessions k
  pub registered : (k : Bytes) → has s.sessions k ≡ true → is_valid_session s k ≡ true
  pub bounded : pos (length s.sessions) ≤ℤ s.max_sessions
  pub fits :
      (k : Bytes) (session : Session)
      → get s.sessions k ≡ some session
      → Fits s.max_messages_per_session s.max_session_size_bytes session

-- A new store is valid, unless its limit on sessions is negative.
pub new_session_store-IsValid :
    (idle max_sessions max_messages max_size : ℤ)
    → pos 0 ≤ℤ max_sessions
    → IsValid (new_session_store idle max_sessions max_messages max_size)
unfolding new_session_store mem has get
new_session_store-IsValid idle max_sessions max_messages max_size h = record {
  is_map = tt;
  distinct = tt;
  tracked = λ k. ground arith;
  registered = λ k e. cc;
  bounded = omega arith;
  fits = λ k session e. cc;
}

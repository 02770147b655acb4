-- ===== src/Store/Append/Result.antt =====
-- What AppendMessage returns and writes.
use microchat_ai.Prelude.{
  ℕ, ◌≡◌, true, false, Option, some, [], arith, inl, inr, pos, ◌<ℤ◌, Bytes, returns, Bool-cases,
}
use microchat_ai.GoMap.{get, has, get-put, get_of_has, get_of_not-has}
use microchat_ai.Session.{Role, Session}
use microchat_ai.Store.{
  SessionStore, AppendError, invalid_session_id, is_valid_session, append_to_session,
  append_message, get_messages,
}
use microchat_ai.Store.Invariant.{IsValid}
use microchat_ai.Store.Evict.{evict_many, excess}
use microchat_ai.Store.Append.{
  ensured, ensure_session-ensured, ensured-IsValid, append_to_session-IsValid,
}

module _ (s : SessionStore) (now : ℕ) (id : Bytes) where
  -- The entry that the rest of AppendMessage finds.
  pub record Entry : Type 0 where
    pub session : Session
    pub found : get (ensured s now id).sessions id ≡ some session
    pub same : session.messages ≡ get_messages s id

  abbrev new_session : Session
  new_session = record { messages = []; last_active = now }

  pub entry : Entry
  unfolding ensured get_messages
  entry = elim (Bool-cases (has s.sessions id)) [
    | inl old ↦
        let (session, e) = get_of_has s.sessions id old in
        record { session = session; found = rw (old, ensured) e; same = ground (arith, e) }
    | inr new ↦ record {
      session = new_session;
      found = ground (arith, new, get-put (evict_many (excess s) s).sessions id id new_session);
      same = ground (arith, get_of_not-has s.sessions id new);
    }
  ]

  module _ (role : Role) (text : Bytes) (v : IsValid s) (p : pos 0 <ℤ s.max_sessions) where
    pub append_message-ensured :
        is_valid_session s id ≡ true
        → append_message s now id role text
          ≡ returns (append_to_session (ensured s now id) now id role text entry.session)
    unfolding append_message
    append_message-ensured reg = rw (reg, ensure_session-ensured s now id v p, entry.found)

    pub append_message-refused :
        is_valid_session s id ≡ false
        → append_message s now id role text ≡ returns (s, some invalid_session_id)
    unfolding append_message
    append_message-refused reg = rw reg

    -- On a valid store with a positive limit on sessions, AppendMessage returns (it neither panics
    -- nor loops), and the store that it leaves is valid, whether or not it reports an error.
    pub append_message-IsValid :
        (r : SessionStore × Option AppendError) × (append_message s now id role text ≡ returns r)
        × IsValid r.0
    append_message-IsValid = elim (Bool-cases (is_valid_session s id)) [
      | inl reg ↦ (
        append_to_session (ensured s now id) now id role text entry.session,
        append_message-ensured reg,
        append_to_session-IsValid (ensured s now id) now id role text entry.session
            (ensured-IsValid s now id v p reg) entry.found,
      )
      | inr unknown ↦ ((s, some invalid_session_id), append_message-refused unknown, v)
    ]

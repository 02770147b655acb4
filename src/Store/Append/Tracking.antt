-- ===== src/Store/Append/Tracking.antt =====
-- Which sessions and registrations AppendMessage leaves.
use microchat_ai.Prelude.{
  ℕ, ◌≡◌, true, false, some, arith, inl, inr, ite, pos, ◌<ℤ◌, if◌then◌else◌, take, Option, Bytes,
  Bytes_discrete, returns, Bool-cases, ◌++◌, [], ◌∷◌,
}
use microchat_ai.GoMap.{get, has, has-put, has-get, has-is_some}
use microchat_ai.Session.{Role, Session}
use microchat_ai.Store.{
  SessionStore, AppendError, is_valid_session, append_to_session, append_message,
  update_session_order,
}
use microchat_ai.Store.Invariant.{IsValid}
use microchat_ai.Store.Order.{mem}
use microchat_ai.Store.Evict.{evict_many, excess, limits}
use microchat_ai.Store.Evict.Gone.{get-evict_many, valid-evict_many}
use microchat_ai.Store.Append.{ensured, written}
use microchat_ai.Store.Append.Result.{entry, append_message-ensured, append_message-refused}
use microchat_ai.Store.Append.Effect.{evicts, limits-ensured}

has-evict_many :
    (n : ℕ) (s : SessionStore) (k : Bytes)
    → has (evict_many n s).sessions k
      ≡ (if mem (take n s.session_order) k then false else has s.sessions k)
has-evict_many n s k =
    ground (
      arith,
      has-is_some (evict_many n s).sessions k,
      has-is_some s.sessions k,
      get-evict_many n s k,
    )

valid-append_to_session :
    (t : SessionStore) (now : ℕ) (id : Bytes) (role : Role) (text : Bytes) (session : Session)
    (j : Bytes)
    → is_valid_session (append_to_session t now id role text session).0 j ≡ is_valid_session t j
unfolding append_to_session update_session_order is_valid_session
valid-append_to_session t now id role text session j = ground arith

has-append_to_session :
    (t : SessionStore) (now : ℕ) (id : Bytes) (role : Role) (text : Bytes) (session : Session)
    (j : Bytes)
    → get t.sessions id ≡ some session
    → has (append_to_session t now id role text session).0.sessions j ≡ has t.sessions j
unfolding append_to_session update_session_order
has-append_to_session t now id role text session j e = ground (
  arith,
  has-get t.sessions id session e,
  has-put t.sessions id j (record {
    messages = session.messages ++ written t now id role text ∷ [];
    last_active = now;
  }),
)

module _ (s : SessionStore) (now : ℕ) (id : Bytes) (role : Role) (text : Bytes) (v : IsValid s)
    (p : pos 0 <ℤ s.max_sessions) where
  valid-ensured :
      (j : Bytes)
      → is_valid_session s id ≡ true
      → is_valid_session (ensured s now id) j
        ≡ (if evicts s id j then false else is_valid_session s j)
  unfolding ensured is_valid_session
  valid-ensured j reg = ground (arith, valid-evict_many (excess s) s j)

  has-ensured :
      (j : Bytes)
      → is_valid_session s id ≡ true
      → has (ensured s now id).sessions j
        ≡ ite (Bytes_discrete id j) true (if evicts s id j then false else has s.sessions j)
  unfolding ensured
  has-ensured j reg = ground (
    arith,
    has-evict_many (excess s) s j,
    has-put (evict_many (excess s) s).sessions id j (record { messages = []; last_active = now }),
  )

  -- On a valid store with a positive limit on sessions, the registrations after AppendMessage:
  -- those of the evicted sessions are gone, and all others are as before.
  pub valid-append_message :
      (r : SessionStore × Option AppendError)
      → append_message s now id role text ≡ returns r
      → (j : Bytes)
      → is_valid_session r.0 j ≡ (if evicts s id j then false else is_valid_session s j)
  valid-append_message r e j = elim (Bool-cases (is_valid_session s id)) [
    | inl reg ↦ ground (
      arith,
      append_message-ensured s now id role text v p reg,
      valid-append_to_session (ensured s now id) now id role text (entry s now id).session j,
      valid-ensured j reg,
    )
    | inr unknown ↦ ground (arith, append_message-refused s now id role text v p unknown)
  ]

  -- The sessions after AppendMessage to a registered id: the id has one, also if an error is
  -- reported, and those that were evicted are gone.
  pub has-append_message :
      (r : SessionStore × Option AppendError)
      → append_message s now id role text ≡ returns r
      → is_valid_session s id ≡ true
      → (j : Bytes)
      → has r.0.sessions j
        ≡ ite (Bytes_discrete id j) true (if evicts s id j then false else has s.sessions j)
  has-append_message r e reg j = ground (
    arith,
    append_message-ensured s now id role text v p reg,
    has-append_to_session (ensured s now id) now id role text (entry s now id).session j
        (entry s now id).found,
    has-ensured j reg,
  )

  limits-append_to_session :
      (t : SessionStore) (session : Session)
      → limits (append_to_session t now id role text session).0 ≡ limits t
  unfolding append_to_session update_session_order
  limits-append_to_session t session = ground arith

  -- AppendMessage leaves the configuration alone.
  pub limits-append_message :
      (r : SessionStore × Option AppendError)
      → append_message s now id role text ≡ returns r
      → limits r.0 ≡ limits s
  limits-append_message r e = elim (Bool-cases (is_valid_session s id)) [
    | inl reg ↦ cc (
      append_message-ensured s now id role text v p reg,
      limits-append_to_session (ensured s now id) (entry s now id).session,
      limits-ensured s now id,
    )
    | inr unknown ↦ cc (append_message-refused s now id role text v p unknown)
  ]

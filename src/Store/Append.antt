-- ===== src/Store/Append.antt =====
-- AppendMessage: it returns on every valid store, keeps the invariant, and writes one message.
pub mod Effect
pub mod Tracking
pub mod Lru
pub mod Result
use microchat_ai.Prelude.{
  ℕ, zero, suc, ◌+◌, ◌-◌, ◌≤◌, ◌<◌, ◌≡◌, refl, Bool, true, false, Option, none, some, List, [], ◌∷◌,
  ◌++◌, arith, inl, inr, ite, ℤ, pos, ◌≤ℤ◌, ◌<ℤ◌, if◌then◌else◌, length, take, Bytes,
  Bytes_discrete, Outcome, returns, ◌>>=◌, length-append, Bool-cases, ◌∙◌,
}
use microchat_ai.GoMap.{
  GoMap, get, has, put, get-put, has-put, has-get, get_of_has, has_of_none, get_of_not-has,
  put-IsMap, length-put_new, length-put_old,
}
use microchat_ai.Session.{Role, Message, Session, message_size, add_sizes, get_session_size}
use microchat_ai.Store.{
  SessionStore, AppendError, is_valid_session, evict_to_limit, ensure_session, append_to_session,
  append_message, remove_first, too_many, too_large, update_session_order, get_messages,
}
use microchat_ai.Store.Order.{
  mem, IsDistinct, mem-append_one, mem-remove_first, remove_first-IsDistinct, append_one-IsDistinct,
}
use microchat_ai.Store.Invariant.{IsValid, Fits}
use microchat_ai.Store.Evict.{
  evict_many, excess, length-order, evict_to_limit-evict_many, evict_many-IsValid,
  length-evict_many, max_sessions-evict_many,
}
use microchat_ai.Store.Evict.Gone.{get-evict_many, valid-evict_many}

-- The store after the session is there, with the loop gone.
unfoldable pub ensured : SessionStore → ℕ → Bytes → SessionStore
ensured s now id = if has s.sessions id then s else record (evict_many (excess s) s) {
  sessions =
      put (evict_many (excess s) s).sessions id (record { messages = []; last_active = now });
  session_order = (evict_many (excess s) s).session_order ++ id ∷ [];
}

pub ensure_session-ensured :
    (s : SessionStore) (now : ℕ) (id : Bytes)
    → IsValid s
    → pos 0 <ℤ s.max_sessions
    → ensure_session s now id ≡ returns (ensured s now id)
unfolding ensure_session ensured
ensure_session-ensured s now id v p = ground (
  arith,
  length-order s.session_order s.sessions v.distinct v.is_map v.tracked,
  evict_to_limit-evict_many (suc (length s.session_order)) s v p,
)

-- A registered session that is not there may be added where there is room.
add_session-IsValid :
    (s : SessionStore) (id : Bytes) (session : Session)
    → IsValid s
    → session.messages ≡ []
    → has s.sessions id ≡ false
    → is_valid_session s id ≡ true
    → pos (suc (length s.sessions)) ≤ℤ s.max_sessions
    → IsValid (record s {
      sessions = put s.sessions id session;
      session_order = s.session_order ++ id ∷ [];
    })
unfolding is_valid_session
add_session-IsValid s id session v e new reg room = record {
  is_map = put-IsMap s.sessions id session v.is_map;
  distinct = append_one-IsDistinct s.session_order id v.distinct (ground (arith, v.tracked id));
  tracked = λ k.
      ground
        (arith, mem-append_one s.session_order id k, has-put s.sessions id k session, v.tracked k);
  registered = λ k h. ground (arith, has-put s.sessions id k session, v.registered k, reg);
  bounded = omega (arith, length-put_new s.sessions id session new);
  fits = λ k other h. ground (arith, get-put s.sessions id k session, v.fits k other);
}

pub mem-take :
    (n : ℕ) (ids : List Bytes) (k : Bytes) → mem ids k ≡ false → mem (take n ids) k ≡ false
unfolding mem
mem-take zero ids k h = refl
mem-take (suc n) [] k h = refl
mem-take (suc n) (j ∷ ids) k h = ground (arith, mem-take n ids k)

-- Creating a session for a registered id keeps the invariant, and makes room first.
pub ensured-IsValid :
    (s : SessionStore) (now : ℕ) (id : Bytes)
    → IsValid s
    → pos 0 <ℤ s.max_sessions
    → is_valid_session s id ≡ true
    → IsValid (ensured s now id)
unfolding ensured
ensured-IsValid s now id v p reg = elim (Bool-cases (has s.sessions id)) [
  | inl old ↦ rw (old, ensured) v
  | inr new ↦
      rw (new, ensured)
        (add_session-IsValid q id (record { messages = []; last_active = now })
          (evict_many-IsValid n s v) refl
          (has_of_none q.sessions id
            (ground (arith, get-evict_many n s id, out new, get_of_not-has s.sessions id new)))
          (ground (arith, valid-evict_many n s id, out new))
          (ground (arith, length-evict_many n s v, max_sessions-evict_many n s)))
]
  where
    n : ℕ
    n = excess s

    q : SessionStore
    q = evict_many n s

    out : has s.sessions id ≡ false → mem (take n s.session_order) id ≡ false
    out new = mem-take n s.session_order id (v.tracked id ∙ new)

add_sizes-append :
    (n : ℕ) (ms : List Message) (m : Message)
    → add_sizes n (ms ++ m ∷ []) ≡ add_sizes n ms + message_size m.role m.text
unfolding add_sizes
add_sizes-append n [] m = refl
add_sizes-append n (x ∷ ms) m = add_sizes-append (n + message_size x.role x.text) ms m

-- A write to a session that is there, with its move to the end of the order.
write_session-IsValid :
    (s : SessionStore) (id : Bytes) (session : Session)
    → IsValid s
    → has s.sessions id ≡ true
    → Fits s.max_messages_per_session s.max_session_size_bytes session
    → IsValid (update_session_order (record s { sessions = put s.sessions id session }) id)
unfolding update_session_order is_valid_session
write_session-IsValid s id session v old fit = record {
  is_map = put-IsMap s.sessions id session v.is_map;
  distinct =
      append_one-IsDistinct rest id (remove_first-IsDistinct id s.session_order v.distinct)
        (ground (arith, mem-remove_first id id s.session_order v.distinct));
  tracked = λ k. ground (
    arith,
    mem-append_one rest id k,
    mem-remove_first id k s.session_order v.distinct,
    has-put s.sessions id k session,
    v.tracked k,
  );
  registered = λ k h. ground (arith, has-put s.sessions id k session, v.registered k, old);
  bounded = omega (arith, length-put_old s.sessions id session old);
  fits = λ k other h. ground (arith, get-put s.sessions id k session, v.fits k other, fit);
}
  where
    rest : List Bytes
    rest = remove_first id s.session_order

module _ (s : SessionStore) (now : ℕ) (id : Bytes) (role : Role) (text : Bytes) where
  abbrev pub written : Message
  written = record { role = role; text = text; timestamp = now }

  module _ (session : Session) where
    abbrev longer : Session
    longer = record { messages = session.messages ++ written ∷ []; last_active = now }

    size-longer : get_session_size longer ≡ get_session_size session + message_size role text
    unfolding get_session_size
    size-longer = add_sizes-append 0 session.messages written

    -- A message that passes both tests leaves the session within its limits.
    longer-Fits :
        too_many s session ≡ false
        → too_large s session role text ≡ false
        → Fits s.max_messages_per_session s.max_session_size_bytes longer
    longer-Fits few small =
        inr (
          ground (arith, length-append session.messages (written ∷ [])),
          ground (arith, size-longer),
        )

    append_to_session-IsValid :
        IsValid s
        → get s.sessions id ≡ some session
        → IsValid (append_to_session s now id role text session).0
    unfolding append_to_session
    append_to_session-IsValid v e = elim (Bool-cases (too_many s session)) [
      | inl many ↦ rw (many, append_to_session) v
      | inr few ↦ elim (Bool-cases (too_large s session role text)) [
        | inl large ↦ rw (few, append_to_session) (rw (large, append_to_session) v)
        | inr small ↦
            rw (few, append_to_session)
              (rw (small, append_to_session)
                (write_session-IsValid s id longer v (has-get s.sessions id session e)
                  (longer-Fits few small)))
      ]
    ]

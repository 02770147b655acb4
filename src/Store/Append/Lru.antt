-- ===== src/Store/Append/Lru.antt =====
-- The order of the store is the window of the most recently used sessions.

use microchat_ai.Prelude.{
  ℕ, zero, suc, ◌-◌, ◌≤◌, ◌≡◌, refl, ap, sym, ◌∙◌, true, false, none, List, [], ◌∷◌, ◌++◌, arith,
  inl, inr, pos, pos_part, ◌<ℤ◌, length, drop, Bytes, returns, Bool-cases, length-append,
}
use microchat_ai.GoMap.{has}
use microchat_ai.Session.{Role, Session}
use microchat_ai.Store.{
  SessionStore, is_valid_session, append_to_session, append_message, update_session_order,
  remove_first,
}
use microchat_ai.Store.Order.{
  mem, length-remove_first, remove_first-append_one, remove_first_missing,
}
use microchat_ai.Store.Invariant.{IsValid}
use microchat_ai.Store.Evict.{excess, length-order}
use microchat_ai.Store.Evict.Gone.{session_order-evict_many}
use microchat_ai.Store.Append.{ensured}
use microchat_ai.Store.Append.Result.{entry, append_message-ensured, append_message-refused}

-- The ideal order: every id ever used, the most recent last, cut to the last `n`.
abbrev pub window : ℕ → List Bytes → List Bytes
window n ids = drop (length ids - n) ids

abbrev pub touch : Bytes → List Bytes → List Bytes
touch id ids = remove_first id ids ++ id ∷ []

drop-append_le : (n : ℕ) (xs ys : List Bytes) → n ≤ length xs → drop n (xs ++ ys) ≡ drop n xs ++ ys
drop-append_le zero xs ys h = refl
drop-append_le (suc n) [] ys h = elim h [ ]
drop-append_le (suc n) (x ∷ xs) ys h = drop-append_le n xs ys (omega arith)

mem-drop : (n : ℕ) (ids : List Bytes) (k : Bytes) → mem ids k ≡ false → mem (drop n ids) k ≡ false
unfolding mem
mem-drop zero ids k h = h
mem-drop (suc n) [] k h = refl
mem-drop (suc n) (j ∷ ids) k h = mem-drop n ids k (ground arith)

-- Without an error the append moves the id to the end of the order that it found.
session_order-append_to_session :
    (t : SessionStore) (now : ℕ) (id : Bytes) (role : Role) (text : Bytes) (session : Session)
    → (append_to_session t now id role text session).1 ≡ none
    → (append_to_session t now id role text session).0.session_order ≡ touch id t.session_order
unfolding append_to_session update_session_order
session_order-append_to_session t now id role text session e = ground arith

module _ (s : SessionStore) (id : Bytes) (v : IsValid s) (p : pos 0 <ℤ s.max_sessions) where
  sizes : length s.session_order ≡ length s.sessions
  sizes = length-order s.session_order s.sessions v.distinct v.is_map v.tracked

  window-touch_old :
      has s.sessions id ≡ true
      → window (pos_part s.max_sessions) (touch id s.session_order) ≡ touch id s.session_order
  window-touch_old old = ap (λ n. drop n (touch id s.session_order)) small
    where
      small : length (touch id s.session_order) - pos_part s.max_sessions ≡ 0
      small = ground (
        arith,
        sizes,
        v.bounded,
        v.tracked id,
        length-remove_first id s.session_order,
        length-append (remove_first id s.session_order) (id ∷ []),
      )

  window-touch_new :
      has s.sessions id ≡ false
      → touch id (drop (excess s) s.session_order ++ id ∷ [])
        ≡ window (pos_part s.max_sessions) (touch id s.session_order)
  window-touch_new new =
      rw
        (
          remove_first-append_one id (drop (excess s) s.session_order)
              (mem-drop (excess s) s.session_order id absent),
          remove_first_missing id s.session_order absent,
        )
        (sym (drop-append_le (excess s) s.session_order (id ∷ []) (ground (arith, sizes)))
          ∙ ap (λ n. drop n (s.session_order ++ id ∷ [])) count)
    where
      absent : mem s.session_order id ≡ false
      absent = v.tracked id ∙ new

      count : excess s ≡ length (s.session_order ++ id ∷ []) - pos_part s.max_sessions
      count = omega (arith, sizes, length-append s.session_order (id ∷ []))

  touch-ensured :
      (now : ℕ)
      → touch id (ensured s now id).session_order
        ≡ window (pos_part s.max_sessions) (touch id s.session_order)
  unfolding ensured
  touch-ensured now = elim (Bool-cases (has s.sessions id)) [
    | inl old ↦ rw (old, ensured) (sym (window-touch_old old))
    | inr new ↦ rw (new, ensured, session_order-evict_many) (window-touch_new new)
  ]

  -- On a valid store with a positive limit on sessions, after an append without an error the order
  -- is the window of the `max_sessions` most recently used ids: the session moves to its end, and
  -- what falls out is the least recently used.
  pub session_order-append_message :
      (now : ℕ) (role : Role) (text : Bytes) (s' : SessionStore)
      → append_message s now id role text ≡ returns (s', none)
      → s'.session_order ≡ window (pos_part s.max_sessions) (touch id s.session_order)
  session_order-append_message now role text s' e = elim (Bool-cases (is_valid_session s id)) [
    | inl reg ↦ ground (
      arith,
      append_message-ensured s now id role text v p reg,
      session_order-append_to_session (ensured s now id) now id role text (entry s now id).session,
      touch-ensured now,
    )
    | inr unknown ↦ cc (append_message-refused s now id role text v p unknown)
  ]

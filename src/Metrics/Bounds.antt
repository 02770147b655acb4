-- ===== src/Metrics/Bounds.antt =====
-- The bound on the memory of the sessions.
use native.Mathlib.Nat.{suc-mul, mul-le-mul_right}
use microchat_ai.Prelude.{
  ◌*◌, map, ℕ, some, Bytes, ◌≡◌, ◌+◌, false, ◌∷◌, [], arith, ◌≤◌, length, pos_part,
}
use microchat_ai.GoMap.{GoMap, get, IsMap, has, has-get}
use microchat_ai.Metrics.{add_memory, update_business_metrics}
use microchat_ai.Spending.{SpendingTracker}
use microchat_ai.Session.{Session, get_session_size, get_session_size-total_size}
use microchat_ai.Store.{get_all_sessions_info, session_info, SessionStore}
use microchat_ai.Store.Invariant.{IsValid}

-- The sizes of the sessions of a map.
abbrev sizes : GoMap Session → ℕ
sizes [] = 0
sizes ((k, session) ∷ m) = get_session_size session + sizes m

add_memory-sizes :
    (total : ℕ) (m : GoMap Session) → add_memory total (map session_info m) ≡ total + sizes m
unfolding add_memory
add_memory-sizes total [] = omega arith
add_memory-sizes total ((k, session) ∷ m) =
    omega (arith, add_memory-sizes (total + get_session_size session) m)

pub get-tail :
    {V : Type 0} (m : GoMap V) (j k : Bytes) (v session : V)
    → has m j ≡ false
    → get m k ≡ some session
    → get ((j, v) ∷ m) k ≡ some session
unfolding get
get-tail m j k v session h e = ground (arith, has-get m k session e)

sizes-bounded :
    (m : GoMap Session) (bound : ℕ)
    → IsMap m
    → ((k : Bytes) (session : Session) → get m k ≡ some session → get_session_size session ≤ bound)
    → sizes m ≤ length m * bound
unfolding get
sizes-bounded [] bound i fits = ground arith
sizes-bounded ((j, v) ∷ m) bound i fits =
    let rest =
      sizes-bounded m bound i.1 (λ k session e. fits k session (get-tail m j k v session i.0 e)) in
    let head = fits j v (ground arith) in omega (arith, head, rest, suc-mul (length m) bound)

-- The memory that the metrics report for a valid store stays within the product of its limits on
-- the sessions and on the size of one.
total_session_memory-bounded :
    (hash : Bytes → Bytes) (api_keys : GoMap Bytes) (tracker : SpendingTracker) (s : SessionStore)
    → IsValid s
    → (update_business_metrics hash api_keys tracker s).total_session_memory
      ≤ pos_part s.max_sessions * pos_part s.max_session_size_bytes
unfolding update_business_metrics get_all_sessions_info
total_session_memory-bounded hash api_keys tracker s v = omega (
  arith,
  add_memory-sizes 0 s.sessions,
  sizes-bounded s.sessions (pos_part s.max_session_size_bytes) v.is_map fits,
  mul-le-mul_right (pos_part s.max_session_size_bytes) few,
)
  where
    few : length s.sessions ≤ pos_part s.max_sessions
    few = omega (arith, v.bounded)

    fits :
        (k : Bytes) (session : Session)
        → get s.sessions k ≡ some session
        → get_session_size session ≤ pos_part s.max_session_size_bytes
    fits k session e = ground (arith, v.fits k session e, get_session_size-total_size session)

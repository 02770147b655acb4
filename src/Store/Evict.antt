-- ===== src/Store/Evict.antt =====
-- The eviction loop of AppendMessage: it ends, and evicts the least recently used sessions only.
pub mod Gone
use microchat_ai.Prelude.{
  ℕ, zero, suc, ◌+◌, ◌-◌, ◌≤◌, ◌<◌, ◌≡◌, refl, ap, sym, ◌∙◌, Bool, true, false, Option, none, some,
  List, [], ◌∷◌, arith, ite, if_pos, if_neg, ℤ, pos, negsuc, pos_part, ◌≤ℤ◌, ◌<ℤ◌, if◌then◌else◌,
  length, drop, Bytes, Bytes_discrete, Outcome, returns, diverges, take, dec_lt, ◌||◌,
}
use microchat_ai.GoMap.{
  GoMap, IsMap, get, has, delete, get-delete, has-delete, delete-IsMap, length-delete,
}
use microchat_ai.Session.{Session}
use microchat_ai.Store.{
  SessionStore, is_valid_session, evict_first, evict_oldest_session, evict_to_limit,
}
use microchat_ai.Store.Order.{mem, IsDistinct}
use microchat_ai.Store.Invariant.{IsValid, Fits}

-- The order holds as many ids as the map has keys.
pub length-order :
    (ids : List Bytes) (m : GoMap Session)
    → IsDistinct ids
    → IsMap m
    → ((k : Bytes) → mem ids k ≡ has m k)
    → length ids ≡ length m
unfolding mem has
length-order [] [] d i t = refl
length-order [] ((j, v) ∷ m) d i t = elim (Bytes_discrete j j) [
  | yes p ↦ cc (t j, if_pos (Bytes_discrete j j) p true (has m j))
  | no p ↦ absurd (p refl)
]
length-order (j ∷ ids) m d i t =
    omega
      (arith, length-order ids (delete m j) d.1 (delete-IsMap m j i) rest, length-delete m j i head)
  where
    head : has m j ≡ true
    head = ground (arith, t j)

    rest : (k : Bytes) → mem ids k ≡ has (delete m j) k
    rest k = ground (arith, t k, has-delete m j k, d.0)

pub length-delete-le : (m : GoMap Session) (k : Bytes) → length (delete m k) ≤ length m
unfolding delete
length-delete-le [] k = omega arith
length-delete-le ((j, v) ∷ m) k = ground (arith, length-delete-le m k)

-- Dropping the head of the order, with its session and its registration, keeps the invariant.
evict_first-IsValid :
    (s : SessionStore) (ids : List Bytes)
    → s.session_order ≡ ids
    → IsValid s
    → IsValid (evict_first s ids)
unfolding evict_first mem is_valid_session
evict_first-IsValid s [] e v = v
evict_first-IsValid s (j ∷ ids) e v = record {
  is_map = delete-IsMap s.sessions j v.is_map;
  distinct = d.1;
  tracked = λ k. ground (arith, has-delete s.sessions j k, d.0, opened k);
  registered = λ k h.
      ground (arith, has-delete s.sessions j k, v.registered k, get-delete s.valid_sessions j k);
  bounded = omega (arith, v.bounded, length-delete-le s.sessions j);
  fits = λ k session h. v.fits k session (ground (arith, get-delete s.sessions j k));
}
  where
    d : IsDistinct (j ∷ ids)
    d = rw e at v.distinct

    opened : (k : Bytes) → mem (j ∷ ids) k ≡ has s.sessions k
    opened k = rw e at (v.tracked k)

pub evict_oldest_session-IsValid : (s : SessionStore) → IsValid s → IsValid (evict_oldest_session s)
unfolding evict_oldest_session
evict_oldest_session-IsValid s v = evict_first-IsValid s s.session_order refl v

length-evict_first :
    (s : SessionStore) (ids : List Bytes)
    → s.session_order ≡ ids
    → IsValid s
    → length (evict_first s ids).sessions ≡ length s.sessions - 1
unfolding evict_first mem
length-evict_first s [] e v =
    omega
      (arith, ap length e, length-order s.session_order s.sessions v.distinct v.is_map v.tracked)
length-evict_first s (j ∷ ids) e v = omega (arith, length-delete s.sessions j v.is_map head)
  where
    opened : mem (j ∷ ids) j ≡ has s.sessions j
    opened = rw e at (v.tracked j)

    head : has s.sessions j ≡ true
    head = ground (arith, opened)

-- One eviction makes room for one session.
pub length-evict_oldest_session :
    (s : SessionStore)
    → IsValid s
    → length (evict_oldest_session s).sessions ≡ length s.sessions - 1
unfolding evict_oldest_session
length-evict_oldest_session s v = length-evict_first s s.session_order refl v

-- The loop without its test: `n` rounds.
unfoldable pub evict_many : ℕ → SessionStore → SessionStore
evict_many zero s = s
evict_many (suc n) s = evict_many n (evict_oldest_session s)

-- The configuration of a store, which no method changes.
pub record Limits : Type 0 where
  pub idle_timeout : ℤ
  pub max_sessions : ℤ
  pub max_messages_per_session : ℤ
  pub max_session_size_bytes : ℤ

abbrev pub limits : SessionStore → Limits
limits s = record {
  idle_timeout = s.idle_timeout;
  max_sessions = s.max_sessions;
  max_messages_per_session = s.max_messages_per_session;
  max_session_size_bytes = s.max_session_size_bytes;
}

limits-evict_first : (s : SessionStore) (ids : List Bytes) → limits (evict_first s ids) ≡ limits s
unfolding evict_first
limits-evict_first s [] = refl
limits-evict_first s (j ∷ ids) = refl

pub limits-evict_oldest_session : (s : SessionStore) → limits (evict_oldest_session s) ≡ limits s
unfolding evict_oldest_session
limits-evict_oldest_session s = limits-evict_first s s.session_order

pub limits-evict_many : (n : ℕ) (s : SessionStore) → limits (evict_many n s) ≡ limits s
unfolding evict_many
limits-evict_many zero s = refl
limits-evict_many (suc n) s =
    limits-evict_many n (evict_oldest_session s) ∙ limits-evict_oldest_session s

-- How many sessions are too many for one more.
abbrev pub excess : SessionStore → ℕ
excess s = suc (length s.sessions) - pos_part s.max_sessions

pub max_sessions-evict_oldest_session :
    (s : SessionStore) → (evict_oldest_session s).max_sessions ≡ s.max_sessions
max_sessions-evict_oldest_session s = ap (λ l. l.max_sessions) (limits-evict_oldest_session s)

excess-evict_oldest_session :
    (s : SessionStore)
    → IsValid s
    → pos 0 <ℤ s.max_sessions
    → s.max_sessions ≤ℤ pos (length s.sessions)
    → excess s ≡ suc (excess (evict_oldest_session s))
excess-evict_oldest_session s v p h =
    ground (arith, length-evict_oldest_session s v, max_sessions-evict_oldest_session s)

-- On a valid store with a positive limit the loop ends, after exactly as many rounds as needed.
pub evict_to_limit-evict_many :
    (fuel : ℕ) (s : SessionStore)
    → IsValid s
    → pos 0 <ℤ s.max_sessions
    → length s.sessions < fuel
    → evict_to_limit fuel s ≡ returns (evict_many (excess s) s)
unfolding evict_to_limit evict_many
evict_to_limit-evict_many zero s v p h = absurd (omega arith)
evict_to_limit-evict_many (suc fuel) s v p h =
    elim (dec_lt (length s.sessions) (pos_part s.max_sessions)) [
      | yes room ↦ let e : excess s ≡ 0 = omega arith in rw e (ground arith)
      | no full ↦
          let q = evict_oldest_session s in
          let e = excess-evict_oldest_session s v p (omega arith) in
          let ih =
            evict_to_limit-evict_many fuel q (evict_oldest_session-IsValid s v)
              (rw (max_sessions-evict_oldest_session s) p)
              (omega (arith, length-evict_oldest_session s v)) in
          rw e (ground (arith, ih))
    ]

pub evict_many-IsValid : (n : ℕ) (s : SessionStore) → IsValid s → IsValid (evict_many n s)
unfolding evict_many
evict_many-IsValid zero s v = v
evict_many-IsValid (suc n) s v =
    evict_many-IsValid n (evict_oldest_session s) (evict_oldest_session-IsValid s v)

pub length-evict_many :
    (n : ℕ) (s : SessionStore)
    → IsValid s
    → length (evict_many n s).sessions ≡ length s.sessions - n
unfolding evict_many
length-evict_many zero s v = omega arith
length-evict_many (suc n) s v = omega (
  arith,
  length-evict_many n (evict_oldest_session s) (evict_oldest_session-IsValid s v),
  length-evict_oldest_session s v,
)

pub max_sessions-evict_many :
    (n : ℕ) (s : SessionStore) → (evict_many n s).max_sessions ≡ s.max_sessions
max_sessions-evict_many n s = ap (λ l. l.max_sessions) (limits-evict_many n s)

-- With a limit on sessions of zero or less, the loop that evicts sessions does not end, whatever
-- the fuel.
pub evict_to_limit-diverges :
    (fuel : ℕ) (s : SessionStore) → s.max_sessions ≤ℤ pos 0 → evict_to_limit fuel s ≡ diverges
unfolding evict_to_limit
evict_to_limit-diverges zero s h = refl
evict_to_limit-diverges (suc fuel) s h = ground (
  arith,
  evict_to_limit-diverges fuel (evict_oldest_session s)
      (rw (max_sessions-evict_oldest_session s) h),
)

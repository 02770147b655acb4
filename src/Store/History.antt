-- ===== src/Store/History.antt =====
-- Any sequence of calls on the store. Every method holds the lock for its whole body, so a
-- concurrent run is such a sequence.
use microchat_ai.Prelude.{
  ℕ, true, List, [], ◌∷◌, arith, Bytes, Outcome, returns, ◌>>=◌, pos, ◌≡◌, ℤ, ◌≢◌, ◌<ℤ◌, false,
  refl, ap, >>=-returns, Option, All, Bool-cases, subst, inl, inr,
}
use microchat_ai.GoMap.{get-put, has, get_of_not-has, has-is_some}
use microchat_ai.Session.{Role}
use microchat_ai.Store.{
  SessionStore, register_session, is_valid_session, append_message, cleanup_idle_sessions,
  new_session_store, AppendError,
}
use microchat_ai.Store.Invariant.{IsValid, new_session_store-IsValid}
use microchat_ai.Store.Cleanup.{
  cleanup_idle_sessions-IsValid, cleanup_idle_sessions_lem, limits-cleanup_idle_sessions,
}
use microchat_ai.Store.Append.Result.{append_message-IsValid, append_message-refused}
use microchat_ai.Store.Append.Tracking.{
  limits-append_message, valid-append_message, has-append_message,
}
use microchat_ai.Store.Append.{mem-take}
use microchat_ai.Store.Evict.{excess}

-- A call, with the time at which it runs.
pub data Call : Type 0 where
  registers : Bytes → Call
  appends : ℕ → Bytes → Role → Bytes → Call
  cleans : ℕ → Call

-- The error of an append goes to its caller; the run goes on from the store.
unfoldable pub step : SessionStore → Call → Outcome SessionStore
step s (registers id) = returns (register_session s id)
step s (appends now id role text) = do (s', _) ← append_message s now id role text; returns s'
step s (cleans now) = returns (cleanup_idle_sessions s now)

unfoldable pub run : SessionStore → List Call → Outcome SessionStore
unfolding step
run s [] = returns s
run s (call ∷ calls) = do s' ← step s call; run s' calls

register_session-IsValid :
    (s : SessionStore) (id : Bytes) → IsValid s → IsValid (register_session s id)
unfolding register_session is_valid_session
register_session-IsValid s id v = record {
  is_map = v.is_map;
  distinct = v.distinct;
  tracked = v.tracked;
  registered = λ k h. ground (arith, get-put s.valid_sessions id k true, v.registered k h);
  bounded = v.bounded;
  fits = v.fits;
}

-- A valid store with a positive limit on its sessions.
pub record IsSound (s : SessionStore) : Type 0 where
  pub valid : IsValid s
  pub positive : pos 0 <ℤ s.max_sessions

-- RegisterSession leaves a sound store.
pub register_session-IsSound :
    (s : SessionStore) (id : Bytes) → IsSound s → IsSound (register_session s id)
register_session-IsSound s id g = record {
  valid = register_session-IsValid s id g.valid;
  positive = unfold register_session in g.positive;
}

-- AppendMessage returns, with or without an error, and leaves a sound store.
pub append_message-IsSound :
    (s : SessionStore) (now : ℕ) (id : Bytes) (role : Role) (text : Bytes)
    → IsSound s
    → (r : SessionStore × Option AppendError) × (append_message s now id role text ≡ returns r)
      × IsSound r.0
append_message-IsSound s now id role text g =
    let (r, e, valid) = append_message-IsValid s now id role text g.valid g.positive in
    (
      r,
      e,
      record {
        valid = valid;
        positive =
            rw
              (ap (λ l. l.max_sessions)
                (limits-append_message s now id role text g.valid g.positive r e))
              g.positive;
      },
    )

pub cleanup_idle_sessions-IsSound :
    (s : SessionStore) (now : ℕ) → IsSound s → IsSound (cleanup_idle_sessions s now)
cleanup_idle_sessions-IsSound s now g = record {
  valid = cleanup_idle_sessions-IsValid s now g.valid;
  positive = rw (ap (λ l. l.max_sessions) (limits-cleanup_idle_sessions s now)) g.positive;
}

step-IsSound :
    (s : SessionStore) (call : Call)
    → IsSound s
    → (s' : SessionStore) × (step s call ≡ returns s') × IsSound s'
unfolding step
step-IsSound s (registers id) g = (register_session s id, refl, register_session-IsSound s id g)
step-IsSound s (cleans now) g =
    (cleanup_idle_sessions s now, refl, cleanup_idle_sessions-IsSound s now g)
step-IsSound s (appends now id role text) g =
    let (r, e, h) = append_message-IsSound s now id role text g in (r.0, rw e, h)

pub run-IsSound :
    (calls : List Call) (s : SessionStore)
    → IsSound s
    → (s' : SessionStore) × (run s calls ≡ returns s') × IsSound s'
unfolding run
run-IsSound [] s g = (s, refl, g)
run-IsSound (call ∷ calls) s g =
    let (t, e, h) = step-IsSound s call g in
    let (s', e', h') = run-IsSound calls t h in (s', rw (e, e'), h')

-- From a new store with a positive limit on its sessions, every sequence of calls returns, and
-- leaves a valid store: no call panics, and the eviction loop always ends.
pub run-new_session_store-IsSound :
    (idle max_sessions max_messages max_size : ℤ) (calls : List Call)
    → pos 0 <ℤ max_sessions
    → (s : SessionStore) × (run (new_session_store idle max_sessions max_messages max_size) calls
        ≡ returns s)
      × IsSound s
run-new_session_store-IsSound idle max_sessions max_messages max_size calls h =
    run-IsSound calls _ (record {
      valid = new_session_store-IsValid idle max_sessions max_messages max_size (omega arith);
      positive = unfold new_session_store in h;
    })

-- A registered id that has no session.
abbrev pub IsUnused : SessionStore → Bytes → Type 0
IsUnused s k = (has s.sessions k ≡ false) × (is_valid_session s k ≡ true)

abbrev pub SparesId : Bytes → Call → Type 0
SparesId k (appends now id role text) = id ≢ k
SparesId k _ = Unit

append_message-IsUnused :
    (s : SessionStore) (now : ℕ) (id : Bytes) (role : Role) (text : Bytes) (k : Bytes)
    → IsSound s
    → id ≢ k
    → (r : SessionStore × Option AppendError) → append_message s now id role text ≡ returns r
    → IsUnused s k
    → IsUnused r.0 k
append_message-IsUnused s now id role text k g other r e u = (
  missing,
  ground (
    arith,
    valid-append_message s now id role text g.valid g.positive r e k,
    mem-take (excess s) s.session_order k,
    g.valid.tracked k,
  ),
)
  where
    missing : has r.0.sessions k ≡ false
    missing = elim (Bool-cases (is_valid_session s id)) [
      | inl reg ↦ ground (
        arith,
        has-append_message s now id role text g.valid g.positive r e reg k,
        mem-take (excess s) s.session_order k,
        g.valid.tracked k,
      )
      | inr unknown ↦
          ground (arith, append_message-refused s now id role text g.valid g.positive unknown)
    ]

step-IsUnused :
    (s s' : SessionStore) (call : Call) (k : Bytes)
    → IsSound s
    → SparesId k call
    → step s call ≡ returns s'
    → IsUnused s k
    → IsUnused s' k
unfolding step register_session is_valid_session
step-IsUnused s s' (registers id) k g spared e u =
    ground (arith, get-put s.valid_sessions id k true)
step-IsUnused s s' (cleans now) k g spared e u =
    let (sessions, registrations, _) = cleanup_idle_sessions_lem s now g.valid in
    let missing = get_of_not-has s.sessions k u.0 in
    (
      ground (arith, has-is_some (cleanup_idle_sessions s now).sessions k, sessions k),
      ground (arith, registrations k),
    )
step-IsUnused s s' (appends now id role text) k g spared e u =
    let (r, returned, done) = >>=-returns (append_message s now id role text) _ e in
    subst (λ t. IsUnused t k) {x = r.0} {y = s'} (cc)
      (append_message-IsUnused s now id role text k g spared r returned u)

run-IsUnused :
    (calls : List Call) (s s' : SessionStore) (k : Bytes)
    → IsSound s
    → All (SparesId k) calls
    → run s calls ≡ returns s'
    → IsUnused s k
    → IsUnused s' k
unfolding run
run-IsUnused [] s s' k g spared e u = subst (λ t. IsUnused t k) {x = s} {y = s'} (cc) u
run-IsUnused (call ∷ calls) s s' k g spared e u =
    let (t, stepped, rest) = >>=-returns (step s call) _ e in
    let (t', stepped', h) = step-IsSound s call g in
    run-IsUnused calls t s' k (subst IsSound (cc) h) spared.1 rest
      (step-IsUnused s t call k g spared.0 stepped u)

-- On a valid store with a positive limit on sessions: an id without a session that is registered,
-- and to which no message is appended, stays registered and without a session, whatever the other
-- calls, the cleanups at any time and the evictions among them.
pub register_session-IsUnused :
    (calls : List Call) (s s' : SessionStore) (k : Bytes)
    → IsSound s
    → has s.sessions k ≡ false
    → All (SparesId k) calls
    → run s (registers k ∷ calls) ≡ returns s'
    → IsUnused s' k
register_session-IsUnused calls s s' k g new spared e =
    run-IsUnused calls t s' k (register_session-IsSound s k g) spared (unfold run in e) (
      unfold register_session is_valid_session in
      (new, ground (arith, get-put s.valid_sessions k k true)))
  where
    t : SessionStore
    t = register_session s k

-- ===== src/Store/Cleanup.antt =====
-- CleanupIdleSessions: exactly the idle sessions go, from all three structures.
use mathlib.Core.Path.{fun_ext}
use microchat_ai.Prelude.{
  ℕ, ◌≡◌, refl, ap, sym, ◌∙◌, Bool, true, false, Option, none, some, List, [], ◌∷◌, arith, ite, ℤ,
  pos, ◌-ℤ◌, if◌then◌else◌, Bytes, Bytes_discrete,
}
use microchat_ai.GoMap.{GoMap, IsMap, get, get-delete, has-delete, delete-IsMap, get_of_not-has}
use microchat_ai.Session.{Session}
use microchat_ai.Store.{
  SessionStore, is_valid_session, is_idle, idle_ids, remove_first, remove_session, remove_sessions,
  cleanup_idle_sessions,
}
use microchat_ai.Store.Order.{mem, IsDistinct, mem-remove_first, remove_first-IsDistinct}
use microchat_ai.Store.Invariant.{IsValid}
use microchat_ai.Store.Evict.{length-delete-le, limits}

remove_session-IsValid : (s : SessionStore) (id : Bytes) → IsValid s → IsValid (remove_session s id)
unfolding remove_session is_valid_session
remove_session-IsValid s id v = record {
  is_map = delete-IsMap s.sessions id v.is_map;
  distinct = remove_first-IsDistinct id s.session_order v.distinct;
  tracked = λ k. ground (
    arith,
    mem-remove_first id k s.session_order v.distinct,
    has-delete s.sessions id k,
    v.tracked k,
  );
  registered = λ k h.
      ground (arith, has-delete s.sessions id k, get-delete s.valid_sessions id k, v.registered k);
  bounded = omega (arith, v.bounded, length-delete-le s.sessions id);
  fits = λ k session h. v.fits k session (ground (arith, get-delete s.sessions id k));
}

remove_sessions-IsValid :
    (s : SessionStore) (ids : List Bytes) → IsValid s → IsValid (remove_sessions s ids)
unfolding remove_sessions
remove_sessions-IsValid s [] v = v
remove_sessions-IsValid s (id ∷ ids) v =
    remove_sessions-IsValid (remove_session s id) ids (remove_session-IsValid s id v)

get-remove_sessions :
    (s : SessionStore) (ids : List Bytes) (k : Bytes)
    → get (remove_sessions s ids).sessions k ≡ (if mem ids k then none else get s.sessions k)
unfolding remove_sessions mem remove_session
get-remove_sessions s [] k = refl
get-remove_sessions s (id ∷ ids) k =
    ground (arith, get-remove_sessions (remove_session s id) ids k, get-delete s.sessions id k)

valid-remove_sessions :
    (s : SessionStore) (ids : List Bytes) (k : Bytes)
    → is_valid_session (remove_sessions s ids) k
      ≡ (if mem ids k then false else is_valid_session s k)
unfolding remove_sessions mem remove_session is_valid_session
valid-remove_sessions s [] k = refl
valid-remove_sessions s (id ∷ ids) k =
    ground
      (arith, valid-remove_sessions (remove_session s id) ids k, get-delete s.valid_sessions id k)

-- The ids that stay, in their order.
abbrev pub without : (Bytes → Bool) → List Bytes → List Bytes
without gone [] = []
without gone (j ∷ ids) = if gone j then without gone ids else j ∷ without gone ids

-- One more id is gone.
abbrev also_gone : Bytes → (Bytes → Bool) → Bytes → Bool
also_gone id gone k = ite (Bytes_discrete id k) true (gone k)

without-also_gone :
    (id : Bytes) (gone : Bytes → Bool) (ids : List Bytes)
    → mem ids id ≡ false
    → without (also_gone id gone) ids ≡ without gone ids
unfolding mem
without-also_gone id gone [] h = refl
without-also_gone id gone (j ∷ ids) h = ground (arith, without-also_gone id gone ids)

without-remove_first :
    (id : Bytes) (gone : Bytes → Bool) (ids : List Bytes)
    → IsDistinct ids
    → without gone (remove_first id ids) ≡ without (also_gone id gone) ids
unfolding remove_first mem
without-remove_first id gone [] d = refl
without-remove_first id gone (j ∷ ids) d =
    ground (arith, without-remove_first id gone ids d.1, without-also_gone id gone ids, d.0)

without-none : (ids : List Bytes) → without (λ k. false) ids ≡ ids
without-none [] = refl
without-none (j ∷ ids) = ap (◌∷◌ j) (without-none ids)

session_order-remove_sessions :
    (s : SessionStore) (ids : List Bytes)
    → IsDistinct s.session_order
    → (remove_sessions s ids).session_order ≡ without (mem ids) s.session_order
unfolding remove_sessions mem remove_session
session_order-remove_sessions s [] d = sym (without-none s.session_order)
session_order-remove_sessions s (id ∷ ids) d =
    session_order-remove_sessions (remove_session s id) ids
      (remove_first-IsDistinct id s.session_order d)
    ∙ without-remove_first id (mem ids) s.session_order d

-- Whether an entry is there and idle.
abbrev pub idle : ℤ → Option Session → Bool
idle cutoff none = false
idle cutoff (some session) = is_idle cutoff session

mem-idle_ids :
    (cutoff : ℤ) (m : GoMap Session) (k : Bytes)
    → IsMap m
    → mem (idle_ids cutoff m) k ≡ idle cutoff (get m k)
unfolding idle_ids mem get
mem-idle_ids cutoff [] k h = refl
mem-idle_ids cutoff ((j, session) ∷ m) k h =
    ground (arith, mem-idle_ids cutoff m k h.1, get_of_not-has m j h.0)

-- A cleanup keeps the store valid.
pub cleanup_idle_sessions-IsValid :
    (s : SessionStore) (now : ℕ) → IsValid s → IsValid (cleanup_idle_sessions s now)
unfolding cleanup_idle_sessions
cleanup_idle_sessions-IsValid s now v = remove_sessions-IsValid s _ v

module _ (s : SessionStore) (now : ℕ) (v : IsValid s) where
  abbrev pub cutoff : ℤ
  cutoff = pos now -ℤ s.idle_timeout

  gone_ids : (k : Bytes) → mem (idle_ids cutoff s.sessions) k ≡ idle cutoff (get s.sessions k)
  gone_ids k = mem-idle_ids cutoff s.sessions k v.is_map

  -- On a valid store, after a cleanup exactly the sessions whose last activity is before the cutoff
  -- are gone, with their registrations; every other session and registration is untouched; and the
  -- order of the sessions that stay is unchanged.
  pub cleanup_idle_sessions_lem :
      ((k : Bytes)
        → get (cleanup_idle_sessions s now).sessions k
          ≡ (if idle cutoff (get s.sessions k) then none else get s.sessions k))
      × ((k : Bytes)
          → is_valid_session (cleanup_idle_sessions s now) k
            ≡ (if idle cutoff (get s.sessions k) then false else is_valid_session s k))
      × ((cleanup_idle_sessions s now).session_order
          ≡ without (λ k. idle cutoff (get s.sessions k)) s.session_order)
  unfolding cleanup_idle_sessions
  cleanup_idle_sessions_lem = (
    λ k. rw (← gone_ids k) (get-remove_sessions s (idle_ids cutoff s.sessions) k),
    λ k. rw (← gone_ids k) (valid-remove_sessions s (idle_ids cutoff s.sessions) k),
    session_order-remove_sessions s (idle_ids cutoff s.sessions) v.distinct
        ∙ ap (λ f. without f s.session_order) (fun_ext gone_ids),
  )

limits-remove_sessions :
    (s : SessionStore) (ids : List Bytes) → limits (remove_sessions s ids) ≡ limits s
unfolding remove_sessions remove_session
limits-remove_sessions s [] = refl
limits-remove_sessions s (id ∷ ids) = limits-remove_sessions (remove_session s id) ids

pub limits-cleanup_idle_sessions :
    (s : SessionStore) (now : ℕ) → limits (cleanup_idle_sessions s now) ≡ limits s
unfolding cleanup_idle_sessions
limits-cleanup_idle_sessions s now = limits-remove_sessions s _

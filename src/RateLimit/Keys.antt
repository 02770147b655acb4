-- ===== src/RateLimit/Keys.antt =====
-- The keys of the limiter do not disturb one another, and an entry goes only when it is stale.
use microchat_ai.Prelude.{
  ℕ, ◌+◌, ◌≤◌, ◌≡◌, refl, Bool, false, Option, none, some, List, [], ◌∷◌, arith, ite, ◌-ℤ◌,
  if◌then◌else◌, Bytes, Bytes_discrete,
}
use microchat_ai.GoMap.{GoMap, IsMap, get, has, get-put, get_of_not-has}
use microchat_ai.RateLimit.{
  Rate, LimitEntry, IpLimiter, seen, allow, is_stale, drop_stale, cleanup, Event, tick,
  stop_cleanup, cleanup_worker,
}

module _ (rate : Rate) where
  last_seen-seen :
      (il : IpLimiter rate) (now : ℕ) (o : Option (LimitEntry rate))
      → (seen rate il now o).last_seen ≡ now
  last_seen-seen il now none = refl
  last_seen-seen il now (some entry) = refl

  -- The answer for a key depends on the limiter of that key alone, and the call leaves the entries
  -- of all other keys as they were.
  allow_local :
      (il : IpLimiter rate) (now at : ℕ) (ip : Bytes)
      → ((allow rate il now at ip).1
          ≡ (rate.allow (seen rate il now (get il.limiters ip)).limiter at).0)
        × ((other : Bytes)
            → get (allow rate il now at ip).0.limiters other
              ≡ ite
                  (Bytes_discrete ip other)
                  (some (record {
                    limiter = (rate.allow (seen rate il now (get il.limiters ip)).limiter at).1;
                    last_seen = now;
                  }))
                  (get il.limiters other))
  unfolding allow
  allow_local il now at ip = (
    refl,
    λ other. rw (last_seen-seen il now (get il.limiters ip)) (get-put il.limiters ip other _),
  )

  abbrev pub stale : ℕ → ℕ → Option (LimitEntry rate) → Bool
  stale expiry now none = false
  stale expiry now (some entry) = is_stale rate expiry now entry

  has-drop_stale :
      (expiry now : ℕ) (m : GoMap (LimitEntry rate)) (ip : Bytes)
      → has m ip ≡ false
      → has (drop_stale rate expiry now m) ip ≡ false
  unfolding drop_stale has
  has-drop_stale expiry now [] ip h = refl
  has-drop_stale expiry now ((j, entry) ∷ m) ip h = ground (arith, has-drop_stale expiry now m ip)

  get-drop_stale :
      (expiry now : ℕ) (m : GoMap (LimitEntry rate)) (ip : Bytes)
      → IsMap m
      → get (drop_stale rate expiry now m) ip
        ≡ (if stale expiry now (get m ip) then none else get m ip)
  unfolding drop_stale get
  get-drop_stale expiry now [] ip h = refl
  get-drop_stale expiry now ((j, entry) ∷ m) ip h =
      ground (arith, get-drop_stale expiry now m ip h.1, get_of_not-has m j h.0)

  drop_stale-IsMap :
      (expiry now : ℕ) (m : GoMap (LimitEntry rate))
      → IsMap m
      → IsMap (drop_stale rate expiry now m)
  unfolding drop_stale
  drop_stale-IsMap expiry now [] h = tt
  drop_stale-IsMap expiry now ((j, entry) ∷ m) h =
      ground (arith, drop_stale-IsMap expiry now m h.1, has-drop_stale expiry now m j h.0)

  -- A cleanup removes exactly the entries that were not seen for longer than the expiry.
  pub get-cleanup :
      (il : IpLimiter rate) (now : ℕ) (ip : Bytes)
      → IsMap il.limiters
      → get (cleanup rate il now).limiters ip
        ≡ (if stale il.expiry now (get il.limiters ip) then none else get il.limiters ip)
  unfolding cleanup
  get-cleanup il now ip h = get-drop_stale il.expiry now il.limiters ip h

  -- No tick comes later than `expiry` after the time `t`.
  abbrev pub Within : ℕ → ℕ → List (Event rate) → Type 0
  Within expiry t [] = Unit
  Within expiry t (tick now ∷ events) = (now ≤ t + expiry) × Within expiry t events
  Within expiry t (stop_cleanup ∷ events) = Within expiry t events

  fresh :
      (expiry now : ℕ) (entry : LimitEntry rate)
      → now ≤ entry.last_seen + expiry
      → is_stale rate expiry now entry ≡ false
  unfolding ◌-ℤ◌
  fresh expiry now entry h = ground arith

  -- In a limiter whose map holds no key twice, whatever ticks the worker serves, an entry stays as
  -- it is while no tick comes later than the expiry after it was last seen: no client gets a new
  -- bucket of tokens early.
  pub get-cleanup_worker :
      (events : List (Event rate)) (il : IpLimiter rate) (ip : Bytes) (entry : LimitEntry rate)
      → IsMap il.limiters
      → get il.limiters ip ≡ some entry
      → Within il.expiry entry.last_seen events
      → get (cleanup_worker rate il events).limiters ip ≡ some entry
  unfolding cleanup_worker
  get-cleanup_worker [] il ip entry m e w = e
  get-cleanup_worker (tick now ∷ events) il ip entry m e w =
      get-cleanup_worker events (cleanup rate il now) ip entry
        (unfold cleanup in drop_stale-IsMap il.expiry now il.limiters m)
        (ground (arith, get-cleanup il now ip m, fresh il.expiry now entry w.0))
        (unfold cleanup in w.1)
  get-cleanup_worker (stop_cleanup ∷ events) il ip entry m e w = e

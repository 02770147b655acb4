-- ===== src/RateLimit.antt =====
-- cmd/server/ratelimit/limiter.go: one rate limiter for each key. golang.org/x/time/rate is not
-- part of the repository, and is the parameter `rate` here; every time.Now() is an argument.
pub mod Keys
pub mod ExtractIp
use microchat_ai.Prelude.{
  ℕ, Bool, true, false, Option, none, some, List, [], ◌∷◌, ℤ, pos, ◌-ℤ◌, ltb_ℤ, if◌then◌else◌,
  length, Bytes, Outcome, returns, panics, ◌*◌,
}
use microchat_ai.GoMap.{GoMap, get, put}

-- rate.Limit, rate.Limiter, rate.NewLimiter and Limiter.Allow. A limiter is mutable: Allow at a time
-- returns its answer and the limiter after it.
pub record Rate : Type 1 where
  pub Limit : Type 0
  pub Limiter : Type 0
  pub new_limiter : Limit → ℤ → Limiter
  pub allow : Limiter → ℕ → Bool × Limiter

module _ (rate : Rate) where
  open rate use {Limit, Limiter}

  pub record LimitEntry : Type 0 where
    pub limiter : Limiter
    pub last_seen : ℕ

  -- Durations are in nanoseconds. `stopped` says whether the channel stopCleanup is closed.
  pub record IpLimiter : Type 0 where
    pub limiters : GoMap LimitEntry
    pub rps : Limit
    pub burst : ℤ
    pub cleanup_interval : ℕ
    pub expiry : ℕ
    pub stopped : Bool

  abbrev pub second : ℕ
  second = 1_000_000_000

  unfoldable pub new_ip_limiter : Limit → ℤ → IpLimiter
  new_ip_limiter rps burst = record {
    limiters = [];
    rps = rps;
    burst = burst;
    cleanup_interval = 10 * 60 * second;
    expiry = 24 * 60 * 60 * second;
    stopped = false;
  }

  -- The entry of a key with its last-seen time set, new if it is not there.
  abbrev pub seen : IpLimiter → ℕ → Option LimitEntry → LimitEntry
  seen il now none = record { limiter = rate.new_limiter il.rps il.burst; last_seen = now }
  seen il now (some entry) = record entry { last_seen = now }

  -- `now` is the time that the entry stores, and `at` the one that the limiter reads.
  unfoldable pub allow : IpLimiter → ℕ → ℕ → Bytes → IpLimiter × Bool
  allow il now at ip =
      let entry = seen il now (get il.limiters ip) in
      let (allowed, limiter) = rate.allow entry.limiter at in
      (record il { limiters = put il.limiters ip (record entry { limiter = limiter }) }, allowed)

  abbrev pub is_stale : ℕ → ℕ → LimitEntry → Bool
  is_stale expiry now entry = ltb_ℤ (pos expiry) (pos now -ℤ pos entry.last_seen)

  unfoldable pub drop_stale : ℕ → ℕ → GoMap LimitEntry → GoMap LimitEntry
  drop_stale expiry now [] = []
  drop_stale expiry now ((ip, entry) ∷ m) =
      let rest = drop_stale expiry now m in
      if is_stale expiry now entry then rest else (ip, entry) ∷ rest

  unfoldable pub cleanup : IpLimiter → ℕ → IpLimiter
  cleanup il now = record il { limiters = drop_stale il.expiry now il.limiters }

  -- What the select of cleanupWorker receives.
  pub data Event : Type 0 where
    tick : ℕ → Event
    stop_cleanup : Event

  -- The worker, over the events that it receives; it reads nothing after a stop.
  unfoldable pub cleanup_worker : IpLimiter → List Event → IpLimiter
  cleanup_worker il [] = il
  cleanup_worker il (tick now ∷ events) = cleanup_worker (cleanup il now) events
  cleanup_worker il (stop_cleanup ∷ events) = il

  -- close of a closed channel panics.
  unfoldable pub stop : IpLimiter → Outcome IpLimiter
  stop il = if il.stopped then panics else returns (record il { stopped = true })

  unfoldable pub get_active_count : IpLimiter → ℕ
  get_active_count il = length il.limiters

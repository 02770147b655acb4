-- ===== src/Tests/Access.antt =====
-- Runs of the interceptors and of the rate limiter.
use RateLimit.{allow}
use microchat_ai.Prelude.{
  ℕ_discrete, Bytes_discrete, ℕ, ◌≡◌, ◌≢◌, refl, arith, Bytes, bytes, [], ◌∷◌, pos, ℤ, negsuc, true,
  false, some, none, Bool, List, suc, zero, Bytes_discrete, has_prefix, trim_prefix,
}
use microchat_ai.Spending.{SpendingTracker, can_make_call, record_call}
use microchat_ai.Interceptor.{SpendingLimiter, health_method, auth_interceptor, chain, admin}
use microchat_ai.RateLimit
use microchat_ai.Tests.Spending.{day, key, half_spent}
use microchat_ai.RateLimit.{Rate, IpLimiter, tick, stop_cleanup}
use microchat_ai.GoMap.{GoMap, get, put, has}
use microchat_ai.Grpc.{Context, Status, ok, unauthenticated, err, resource_exhausted}
use microchat_ai.Interceptor.Auth.{
  Allowed, signed_in, auth_interceptor_complete, auth_interceptor_sound,
}
use microchat_ai.Interceptor.Limit.{chain-Allowed}
use microchat_ai.RateLimit.Keys.{get-cleanup_worker}

-- The tracker of cmd/server/main.go on one day.
abbrev limiter : SpendingLimiter SpendingTracker
limiter = record {
  can_make_call = λ s k. can_make_call s day k;
  record_call = λ s k. record_call s day k;
}

-- A bucket that is never refilled.
abbrev pub take_token : ℕ → Bool × ℕ
take_token zero = (false, zero)
take_token (suc n) = (true, n)

abbrev pub burst_size : ℤ → ℕ
burst_size (pos n) = n
burst_size (negsuc n) = 0

abbrev pub bucket : Rate
bucket = record {
  Limit = ℕ;
  Limiter = ℕ;
  new_limiter = λ limit burst. burst_size burst;
  allow = λ tokens at. take_token tokens;
}

abbrev pub keys : GoMap Bytes
keys = (key, admin) ∷ (bytes "l", bytes "user") ∷ []

abbrev pub md : GoMap (List Bytes)
md = (bytes "authorization", bytes "Bearer k" ∷ []) ∷ []

abbrev pub ctx : Context
ctx = record { metadata = some md; peer = none; api_key = none; user_role = none }

abbrev method : Bytes
method = bytes "/chat.ChatService/Chat"

not_health : method ≢ health_method
not_health e = cc

allowed : Allowed limiter keys half_spent method ctx key admin
unfolding get can_make_call Bytes_discrete ℕ_discrete
allowed = record {
  presents = record { md = md; more = []; incoming = refl; header = refl };
  configured = refl;
  admin_only = λ e. refl;
  within_limit = refl;
}

auth_interceptor_complete_example :
    auth_interceptor limiter keys half_spent method ctx
    ≡ (record_call half_spent day key, ok (signed_in ctx key admin))
auth_interceptor_complete_example =
    auth_interceptor_complete limiter keys half_spent method ctx key admin not_health allowed

authorised :
    auth_interceptor limiter keys half_spent method ctx
    ≡ (record_call half_spent day key, ok (signed_in ctx key admin))
unfolding auth_interceptor Bytes_discrete get has_prefix trim_prefix can_make_call
authorised = refl

auth_interceptor_sound_example :
    (k : Bytes) × (role : Bytes) × Allowed limiter keys half_spent method ctx k role
    × (record_call half_spent day key ≡ record_call half_spent day k)
    × (signed_in ctx key admin ≡ signed_in ctx k role)
auth_interceptor_sound_example =
    auth_interceptor_sound limiter keys half_spent method ctx (record_call half_spent day key)
      (signed_in ctx key admin) not_health authorised

-- A wrong key.
abbrev stranger : Context
stranger = record ctx { metadata = some ((bytes "authorization", bytes "Bearer no" ∷ []) ∷ []) }

abbrev invalid_key : Status
invalid_key = record { code = unauthenticated; message = bytes "invalid API key" }

stranger_refused : (auth_interceptor limiter keys half_spent method stranger).1 ≡ err invalid_key
unfolding auth_interceptor Bytes_discrete get has_prefix trim_prefix
stranger_refused = refl

-- A limiter whose bucket for the key is empty.
abbrev il : IpLimiter bucket
il = record {
  limiters = (bytes "api_key:k", record { limiter = 0; last_seen = 5 }) ∷ [];
  rps = 1;
  burst = pos 2;
  cleanup_interval = 10;
  expiry = 100;
  stopped = false;
}

chain-Allowed_example : chain bucket limiter keys half_spent il 7 7 method ctx ≡ (
  record_call half_spent day key,
  record il { limiters = (bytes "api_key:k", record { limiter = 0; last_seen = 7 }) ∷ [] },
  err (record { code = resource_exhausted; message = bytes "rate limit exceeded" }),
)
unfolding allow put Bytes_discrete get
chain-Allowed_example =
    chain-Allowed bucket limiter keys half_spent il 7 7 method ctx key admin not_health allowed

get-cleanup_worker_example :
    get
      (RateLimit.cleanup_worker bucket il (tick 105 ∷ stop_cleanup ∷ [])).limiters
      (bytes "api_key:k")
    ≡ some (record { limiter = 0; last_seen = 5 })
unfolding has get Bytes_discrete
get-cleanup_worker_example =
    get-cleanup_worker bucket (tick 105 ∷ stop_cleanup ∷ []) il (bytes "api_key:k")
      (record { limiter = 0; last_seen = 5 }) (refl, tt) refl (omega arith, tt)

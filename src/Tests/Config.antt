-- ===== src/Tests/Config.antt =====
-- Runs of the configuration and of the server's metrics.
use microchat_ai.Net.{split, trim_space}
use microchat_ai.Prelude.{
  ℕ_discrete, trim_prefix, sym, ℕ, some, refl, true, Bytes, bytes, ite, pos, ◌≡◌, ◌∷◌, [],
  Bytes_discrete, ◌==◌, ◌↔◌, returns, arith, ◌++◌, atoi,
}
use microchat_ai.Tests.Store.{store_ab}
use microchat_ai.Config.{
  Environment, Config, load_config, signed_64, loaded, session_store_of, parse_api_keys,
}
use microchat_ai.Config.Limits.{load_config-IsSound}
use microchat_ai.Store.{SessionStore}
use microchat_ai.Spending.{KeyUsage, SpendingTracker, can_make_call}
use microchat_ai.Metrics.{update_business_metrics, keys_over_limit}
use microchat_ai.Metrics.Registry.{Registry, publish, increment_grpc_error, or_new}
use microchat_ai.Metrics.Hash.{hash_api_key, hex}
use microchat_ai.Main.{pprof}
use microchat_ai.Main.Http.{serve_http, serve_http-IsAdmin}
use microchat_ai.Config.Admins.{Names}
use microchat_ai.Metrics.Usage.{IsApart, api_calls_today-publish}
use microchat_ai.AdminAuth.{admin_auth, proceeds, admin_auth_iff}
use microchat_ai.Store.History.{run, registers, IsSound}
use microchat_ai.GoMap.{has, get, put}
use microchat_ai.Metrics.OverLimit.{refused_keys, keys_over_limit-refused}
use microchat_ai.Interceptor.{bearer, admin}

-- The environment of a server, and its rate as a number of tenths.
abbrev pub getenv : Bytes → Bytes
getenv name = ite (Bytes_discrete name (bytes "PORT")) (bytes "4000") (
    ite (Bytes_discrete name (bytes "APP_ENV")) (bytes "production") (
      ite (Bytes_discrete name (bytes "SESSION_CLEANUP_INTERVAL")) (bytes "5m") (
        ite (Bytes_discrete name (bytes "SESSION_IDLE_TIMEOUT")) (bytes "30m")
          (ite (Bytes_discrete name (bytes "API_KEYS")) (bytes "k, a:admin") []))))

abbrev pub environment : Environment ℕ
environment = record {
  getenv = getenv;
  parse_duration = λ text. some (pos 300);
  parse_float = λ text. some 100;
  le_zero = λ f. f == 0;
}

abbrev pub cfg : Config ℕ
cfg = record {
  port = pos 4000;
  env = bytes "production";
  session_cleanup_interval = pos 300;
  session_idle_timeout = pos 300;
  rate_limit_rps = 100;
  rate_limit_burst = 20;
  api_keys = (bytes "k", bytes "user") ∷ (bytes "a", bytes "admin") ∷ [];
  daily_call_limit = 100;
  max_sessions = 1000;
  max_messages_per_session = 100;
  max_session_size_bytes = pos 102400;
  pprof_port = 6060;
  metrics_port = 9090;
}

pub loads : load_config environment ≡ loaded cfg
unfolding load_config Bytes_discrete atoi parse_api_keys signed_64 split trim_space put
loads = refl

load_config-IsSound_example :
    (s : SessionStore) × (run (session_store_of cfg) (registers (bytes "a") ∷ []) ≡ returns s)
    × IsSound s
load_config-IsSound_example = load_config-IsSound environment cfg (registers (bytes "a") ∷ []) loads

abbrev spent : KeyUsage
spent = record { date = bytes "2026-01-01"; calls = 2 }

abbrev tracker : SpendingTracker
tracker = record { usage = (bytes "k", spent) ∷ []; limit = pos 2 }

keys_over_limit-refused_example :
    keys_over_limit tracker.limit tracker.usage ≡ refused_keys tracker tracker.usage
unfolding has
keys_over_limit-refused_example = keys_over_limit-refused tracker (refl, tt)

-- On the next day the key can make calls, and still counts.
stale :
    (can_make_call tracker (bytes "2026-01-02") (bytes "k") ≡ true)
    × (keys_over_limit tracker.limit tracker.usage ≡ 1)
unfolding can_make_call keys_over_limit get Bytes_discrete ℕ_discrete
stale = (refl, refl)

admin_auth_iff_example :
    (admin_auth ((bytes "a", bytes "admin") ∷ []) (bytes "Bearer a") ≡ proceeds) ↔ (
      (key : Bytes) × (bytes "Bearer a" ≡ bearer ++ key)
      × (get ((bytes "a", bytes "admin") ∷ []) key ≡ some admin))
admin_auth_iff_example = admin_auth_iff ((bytes "a", bytes "admin") ∷ []) (bytes "Bearer a")

-- Gauges before the first update.
abbrev no_metrics : Registry ℕ
no_metrics = record {
  request_duration = [];
  llm_call_duration = [];
  active = 0;
  sessions_created_total = 0;
  rate_limit_exceeded_total = 0;
  request_bytes = [];
  api_keys_total = 0;
  api_calls_today = [];
  api_keys_over_limit = 0;
  daily_call_limit = pos 0;
  total_session_memory_bytes = 0;
  grpc_errors = [];
  llm_errors = [];
  server_config_info = [];
  server_start_time = 0;
}

-- A label that is the text of the key itself.
abbrev label : Bytes → Bytes
label key = hash_api_key (λ text. text) key

two_digits : label (bytes "k") ≡ bytes "6b"
unfolding hash_api_key hex
two_digits = refl

only_key : IsApart label (bytes "k") tracker.usage
unfolding has
only_key j h e = elim (Bytes_discrete (bytes "k") j) [ yes p ↦ sym p | no p ↦ ground arith ]

api_calls_today-publish_example :
    get
      (publish no_metrics (update_business_metrics label [] tracker store_ab)).api_calls_today
      (label (bytes "k"))
    ≡ some 2
unfolding get has Bytes_discrete
api_calls_today-publish_example =
    api_calls_today-publish label (bytes "k") no_metrics [] tracker store_ab spent (refl, tt)
      only_key refl

error_twice :
    get
      (or_new [] (
        get
          (increment_grpc_error
            (increment_grpc_error no_metrics (bytes "Chat") (bytes "NotFound"))
            (bytes "Chat")
            (bytes "NotFound")).grpc_errors
          (bytes "Chat")))
      (bytes "NotFound")
    ≡ some 2
unfolding increment_grpc_error get put Bytes_discrete
error_twice = refl

serve_http-IsAdmin_example :
    (key : Bytes) × (bytes "Bearer a" ≡ bearer ++ key) × Names key (split b',' (bytes "k, a:admin"))
unfolding serve_http admin_auth parse_api_keys split trim_space get put Bytes_discrete trim_prefix
serve_http-IsAdmin_example =
    serve_http-IsAdmin (bytes "k, a:admin") pprof (bytes "/debug/pprof/heap") (bytes "Bearer a")
      refl

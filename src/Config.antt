-- ===== src/Config.antt =====
-- cmd/server/main.go: loadConfig, and the store that main builds from it. The errors are named by
-- the variable that they are about; the .env file counts as part of the environment.
pub mod Limits
pub mod Admins
pub mod Keys
pub mod Size
use microchat_ai.Prelude.{
  ℕ, zero, suc, none, some, pos, negsuc, Bytes, ℤ, bytes, Option, ◌∷◌, if◌then◌else◌, List, atoi,
  Bool, [], ltb, ite, ◌*◌, ◌%◌, Bytes_discrete, ◌^◌, ◌-ℤ◌,
}
use microchat_ai.GoMap.{GoMap, put}
use microchat_ai.Store.{SessionStore, new_session_store}
use microchat_ai.Net.{trim_space, split}
use microchat_ai.Interceptor.{admin}

-- What loadConfig reads: os.Getenv (an unset variable is empty), time.ParseDuration in nanoseconds,
-- strconv.ParseFloat, and the test `<= 0` on its result.
pub record Environment (Float : Type 0) : Type 0 where
  pub getenv : Bytes → Bytes
  pub parse_duration : Bytes → Option ℤ
  pub parse_float : Bytes → Option Float
  pub le_zero : Float → Bool

pub record Config (Float : Type 0) : Type 0 where
  pub port : ℤ
  pub env : Bytes
  pub session_cleanup_interval : ℤ
  pub session_idle_timeout : ℤ
  pub rate_limit_rps : Float
  pub rate_limit_burst : ℕ
  pub api_keys : GoMap Bytes
  pub daily_call_limit : ℕ
  pub max_sessions : ℕ
  pub max_messages_per_session : ℕ
  pub max_session_size_bytes : ℤ
  pub pprof_port : ℕ
  pub metrics_port : ℕ

pub record Base (Float : Type 0) : Type 0 where
  pub port : ℤ
  pub env : Bytes
  pub session_cleanup_interval : ℤ
  pub session_idle_timeout : ℤ
  pub rate_limit_rps : Float

pub record Quotas : Type 0 where
  pub burst : ℕ
  pub limit : ℕ
  pub sessions : ℕ
  pub messages : ℕ
  pub size : ℕ

-- The error is that a variable is missing, or that its value is invalid.
pub data Loaded {ℓ} (A : Type ℓ) : Type ℓ where
  loaded : A → Loaded A
  required invalid : Bytes → Loaded A

infixl 5 ◌>>=◌
abbrev pub ◌>>=◌ {ℓ κ} : {A : Type ℓ} {B : Type κ} → Loaded A → (A → Loaded B) → Loaded B
loaded a >>= f = f a
required name >>= f = required name
invalid name >>= f = invalid name

-- A value that must parse.
unfoldable pub parsed {ℓ} : {A : Type ℓ} → Bytes → Option A → Loaded A
parsed name none = invalid name
parsed name (some a) = loaded a

-- A text that must be there.
unfoldable pub present : Bytes → Bytes → Loaded Bytes
present name [] = required name
present name (c ∷ s) = loaded (c ∷ s)

abbrev or_default : Bytes → Bytes → Bytes
or_default default [] = default
or_default default (c ∷ s) = c ∷ s

-- A numeral that must be positive.
unfoldable pub positive : Bytes → Option ℤ → Loaded ℕ
positive name (some (pos (suc n))) = loaded (suc n)
positive name _ = invalid name

unfoldable pub port_number : Bytes → Loaded ℕ → Loaded ℕ
port_number name (loaded n) = if ltb 65535 n then invalid name else loaded n
port_number name (required v) = required v
port_number name (invalid v) = invalid v

-- An int64 from its bit pattern.
unfoldable pub signed_64 : ℕ → ℤ
signed_64 n =
    if ltb (n % 2 ^ 64) (2 ^ 63) then pos (n % 2 ^ 64) else pos (n % 2 ^ 64) -ℤ pos (2 ^ 64)

abbrev pub behind : ℕ → Option Bytes → Option Bytes
behind c none = none
behind c (some t) = some (c ∷ t)

-- strings.HasSuffix and TrimSuffix: the text in front of the suffix, if it ends with it.
unfoldable pub strip_suffix : Bytes → Bytes → Option Bytes
strip_suffix suffix [] = ite (Bytes_discrete [] suffix) (some []) none
strip_suffix suffix (c ∷ s) =
    let rest = strip_suffix suffix s in
    ite (Bytes_discrete (c ∷ s) suffix) (some []) (behind c rest)

abbrev pub admin_suffix : Bytes
admin_suffix = bytes ":admin"

-- A key with its role, from the part of its entry in front of ":admin", if it ends so.
unfoldable pub put_key : GoMap Bytes → Bytes → Option Bytes → GoMap Bytes
put_key keys key none = put keys key (bytes "user")
put_key keys key (some key_part) = put keys key_part admin

-- One entry of the list, with the spaces around it gone.
unfoldable pub add_key : GoMap Bytes → Bytes → GoMap Bytes
unfolding strip_suffix put_key
add_key keys [] = keys
add_key keys (c ∷ s) = put_key keys (c ∷ s) (strip_suffix admin_suffix (c ∷ s))

unfoldable pub add_keys : GoMap Bytes → List Bytes → GoMap Bytes
unfolding add_key
add_keys keys [] = keys
add_keys keys (key ∷ more) = add_keys (add_key keys (trim_space key)) more

unfoldable pub parse_api_keys : Bytes → GoMap Bytes
unfolding add_keys
parse_api_keys [] = []
parse_api_keys (c ∷ s) = add_keys [] (split b',' (c ∷ s))

module _ {Float : Type 0} (e : Environment Float) where
  abbrev positive_setting : Bytes → Bytes → Loaded ℕ
  positive_setting name default = positive name (atoi (or_default default (e.getenv name)))

  abbrev port_setting : Bytes → Bytes → Loaded ℕ
  port_setting name default = port_number name (positive_setting name default)

  abbrev duration_setting : Bytes → Loaded ℤ
  duration_setting name = do s ← present name (e.getenv name); parsed name (e.parse_duration s)

  -- The rate must not be `<= 0`.
  unfoldable pub rate_setting : Bytes → Option Float → Loaded Float
  rate_setting name none = invalid name
  rate_setting name (some f) = if e.le_zero f then invalid name else loaded f

  -- The first settings, in the order of the code.
  unfoldable pub load_base : Loaded (Base Float)
  unfolding present parsed rate_setting
  load_base = do
    port_text ← present (bytes "PORT") (e.getenv (bytes "PORT"))
    port ← parsed (bytes "PORT") (atoi port_text)
    env ← present (bytes "APP_ENV") (e.getenv (bytes "APP_ENV"))
    interval ← duration_setting (bytes "SESSION_CLEANUP_INTERVAL")
    timeout ← duration_setting (bytes "SESSION_IDLE_TIMEOUT")
    rps ←
        rate_setting (bytes "RATE_LIMIT_RPS")
          (e.parse_float (or_default (bytes "10") (e.getenv (bytes "RATE_LIMIT_RPS"))))
    loaded (record {
      port = port;
      env = env;
      session_cleanup_interval = interval;
      session_idle_timeout = timeout;
      rate_limit_rps = rps;
    })

  -- The limits; the size is in KB here.
  unfoldable pub load_quotas : Loaded Quotas
  unfolding positive
  load_quotas = do
    burst ← positive_setting (bytes "RATE_LIMIT_BURST") (bytes "20")
    limit ← positive_setting (bytes "DAILY_CALL_LIMIT") (bytes "100")
    max_sessions ← positive_setting (bytes "MAX_SESSIONS") (bytes "1000")
    max_messages ← positive_setting (bytes "MAX_MESSAGES_PER_SESSION") (bytes "100")
    max_size ← positive_setting (bytes "MAX_SESSION_SIZE_KB") (bytes "100")
    loaded (record {
      burst = burst;
      limit = limit;
      sessions = max_sessions;
      messages = max_messages;
      size = max_size;
    })

  unfoldable pub load_ports : Loaded (ℕ × ℕ)
  unfolding positive port_number
  load_ports = do
    pprof ← port_setting (bytes "PPROF_PORT") (bytes "6060")
    metrics ← port_setting (bytes "METRICS_PORT") (bytes "9090")
    loaded (pprof, metrics)

  abbrev pub assemble : Base Float → Quotas → ℕ × ℕ → Config Float
  assemble base quotas (pprof, metrics) = record {
    port = base.port;
    env = base.env;
    session_cleanup_interval = base.session_cleanup_interval;
    session_idle_timeout = base.session_idle_timeout;
    rate_limit_rps = base.rate_limit_rps;
    rate_limit_burst = quotas.burst;
    api_keys = parse_api_keys (e.getenv (bytes "API_KEYS"));
    daily_call_limit = quotas.limit;
    max_sessions = quotas.sessions;
    max_messages_per_session = quotas.messages;
    max_session_size_bytes = signed_64 (quotas.size * 1024);
    pprof_port = pprof;
    metrics_port = metrics;
  }

  unfoldable pub load_config : Loaded (Config Float)
  unfolding load_base load_quotas load_ports
  load_config = do
    base ← load_base
    quotas ← load_quotas
    ports ← load_ports
    loaded (assemble base quotas ports)

-- The session store of main.
unfoldable pub session_store_of : {Float : Type 0} → Config Float → SessionStore
session_store_of cfg =
    new_session_store cfg.session_idle_timeout (pos cfg.max_sessions)
      (pos cfg.max_messages_per_session) cfg.max_session_size_bytes

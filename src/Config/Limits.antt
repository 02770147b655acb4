-- ===== src/Config/Limits.antt =====
-- What a configuration that loads is good for.
use microchat_ai.Prelude.{
  ℕ, zero, suc, none, some, pos, negsuc, refl, Bytes, Option, ◌≤◌, ◌≡◌, ℤ, arith, ◌*◌, bytes, atoi,
  subst, List, returns,
}
use microchat_ai.Config.{
  ◌>>=◌, Loaded, positive, port_number, Environment, Config, load_config, signed_64, loaded,
  required, invalid, or_default, positive_setting, port_setting, Quotas, load_quotas, load_ports,
  Base, load_base, session_store_of, assemble,
}
use microchat_ai.Store.History.{Call, run, IsSound, run-new_session_store-IsSound}
use microchat_ai.Store.{SessionStore}

pub >>=-loaded {ℓ κ} :
    {A : Type ℓ} {B : Type κ} (m : Loaded A) (f : A → Loaded B) {b : B}
    → (m >>= f) ≡ loaded b
    → (a : A) × (m ≡ loaded a) × (f a ≡ loaded b)
>>=-loaded (loaded a) f h = (a, refl, h)
>>=-loaded (required name) f h = cc
>>=-loaded (invalid name) f h = cc

pub loaded-injective {ℓ} : {A : Type ℓ} {a b : A} → loaded a ≡ loaded b → a ≡ b
loaded-injective h = cc

positive-bounded : (name : Bytes) (o : Option ℤ) (n : ℕ) → positive name o ≡ loaded n → 1 ≤ n
unfolding positive
positive-bounded name none n h = cc
positive-bounded name (some (negsuc m)) n h = cc
positive-bounded name (some (pos zero)) n h = cc
positive-bounded name (some (pos (suc m))) n h = ground arith

port_number-bounded :
    (name : Bytes) (o : Option ℤ) (n : ℕ)
    → port_number name (positive name o) ≡ loaded n
    → (1 ≤ n) × (n ≤ 65535)
unfolding port_number positive
port_number-bounded name none n h = cc
port_number-bounded name (some (negsuc m)) n h = cc
port_number-bounded name (some (pos zero)) n h = cc
port_number-bounded name (some (pos (suc m))) n h = ground arith

module _ {Float : Type 0} (e : Environment Float) where
  setting-bounded :
      (name default : Bytes) (n : ℕ) → positive_setting e name default ≡ loaded n → 1 ≤ n
  setting-bounded name default n h =
      positive-bounded name (atoi (or_default default (e.getenv name))) n h

  port_setting-bounded :
      (name default : Bytes) (n : ℕ)
      → port_setting e name default ≡ loaded n
      → (1 ≤ n) × (n ≤ 65535)
  port_setting-bounded name default n h =
      port_number-bounded name (atoi (or_default default (e.getenv name))) n h

  -- All limits are positive.
  record IsPositive (q : Quotas) : Type 0 where
    burst : 1 ≤ q.burst
    limit : 1 ≤ q.limit
    sessions : 1 ≤ q.sessions
    messages : 1 ≤ q.messages
    size : 1 ≤ q.size

  load_quotas-IsPositive : (q : Quotas) → load_quotas e ≡ loaded q → IsPositive q
  unfolding load_quotas
  load_quotas-IsPositive q h =
      let (a, pa, ha) =
        >>=-loaded (positive_setting e (bytes "RATE_LIMIT_BURST") (bytes "20")) _ h in
      let (b, pb, hb) =
        >>=-loaded (positive_setting e (bytes "DAILY_CALL_LIMIT") (bytes "100")) _ ha in
      let (c, pc, hc) =
        >>=-loaded (positive_setting e (bytes "MAX_SESSIONS") (bytes "1000")) _ hb in
      let (d, pd, hd) =
        >>=-loaded (positive_setting e (bytes "MAX_MESSAGES_PER_SESSION") (bytes "100")) _ hc in
      let (k, pk, hk) =
        >>=-loaded (positive_setting e (bytes "MAX_SESSION_SIZE_KB") (bytes "100")) _ hd in
      subst IsPositive (loaded-injective hk) (record {
        burst = setting-bounded (bytes "RATE_LIMIT_BURST") (bytes "20") a pa;
        limit = setting-bounded (bytes "DAILY_CALL_LIMIT") (bytes "100") b pb;
        sessions = setting-bounded (bytes "MAX_SESSIONS") (bytes "1000") c pc;
        messages = setting-bounded (bytes "MAX_MESSAGES_PER_SESSION") (bytes "100") d pd;
        size = setting-bounded (bytes "MAX_SESSION_SIZE_KB") (bytes "100") k pk;
      })

  ArePorts : ℕ × ℕ → Type 0
  ArePorts (m, n) = ((1 ≤ m) × (m ≤ 65535)) × ((1 ≤ n) × (n ≤ 65535))

  load_ports-ArePorts : (p : ℕ × ℕ) → load_ports e ≡ loaded p → ArePorts p
  unfolding load_ports ArePorts
  load_ports-ArePorts p h =
      let (a, pa, ha) = >>=-loaded (port_setting e (bytes "PPROF_PORT") (bytes "6060")) _ h in
      let (b, pb, hb) = >>=-loaded (port_setting e (bytes "METRICS_PORT") (bytes "9090")) _ ha in
      subst ArePorts (loaded-injective hb) (
        port_setting-bounded (bytes "PPROF_PORT") (bytes "6060") a pa,
        port_setting-bounded (bytes "METRICS_PORT") (bytes "9090") b pb,
      )

  -- Every limit is positive, the two ports are ports, and the limit on the size of a session is a
  -- positive number of KB, wrapped to 64 bits.
  pub record IsBounded (cfg : Config Float) : Type 0 where
    pub burst : 1 ≤ cfg.rate_limit_burst
    pub daily : 1 ≤ cfg.daily_call_limit
    pub sessions : 1 ≤ cfg.max_sessions
    pub messages : 1 ≤ cfg.max_messages_per_session
    pub pprof : (1 ≤ cfg.pprof_port) × (cfg.pprof_port ≤ 65535)
    pub metrics : (1 ≤ cfg.metrics_port) × (cfg.metrics_port ≤ 65535)
    pub size : (kb : ℕ) × (1 ≤ kb) × (cfg.max_session_size_bytes ≡ signed_64 (kb * 1024))

  assemble-IsBounded :
      (base : Base Float) (q : Quotas) (p : ℕ × ℕ)
      → IsPositive q
      → ArePorts p
      → IsBounded (assemble e base q p)
  unfolding ArePorts
  assemble-IsBounded base q p i r = record {
    burst = i.burst;
    daily = i.limit;
    sessions = i.sessions;
    messages = i.messages;
    pprof = r.0;
    metrics = r.1;
    size = (q.size, i.size, refl);
  }

  -- A configuration that loads has positive limits and valid ports, and a limit on the size of a
  -- session that is a positive number of KB, wrapped to 64 bits.
  pub load_config-IsBounded : (cfg : Config Float) → load_config e ≡ loaded cfg → IsBounded cfg
  unfolding load_config
  load_config-IsBounded cfg h =
      let (base, _, h₁) = >>=-loaded (load_base e) _ h in
      let (q, quotas_ok, h₂) = >>=-loaded (load_quotas e) _ h₁ in
      let (p, ports_ok, h₃) = >>=-loaded (load_ports e) _ h₂ in
      subst IsBounded (loaded-injective h₃) (
        assemble-IsBounded base q p (load_quotas-IsPositive q quotas_ok)
          (load_ports-ArePorts p ports_ok))

  -- The store that main builds from a configuration that loads never leaves the invariant: every
  -- sequence of calls on it returns, and leaves a valid store.
  pub load_config-IsSound :
      (cfg : Config Float) (calls : List Call)
      → load_config e ≡ loaded cfg
      → (s : SessionStore) × (run (session_store_of cfg) calls ≡ returns s) × IsSound s
  unfolding session_store_of
  load_config-IsSound cfg calls h =
      run-new_session_store-IsSound cfg.session_idle_timeout (pos cfg.max_sessions)
        (pos cfg.max_messages_per_session) cfg.max_session_size_bytes calls
        (omega (arith, (load_config-IsBounded cfg h).sessions))

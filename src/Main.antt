-- ===== src/Main.antt =====
-- cmd/server/main.go: main. The goroutines and the listeners are started and stopped in the order
-- of the text; what fails before the signal ends the program.
pub mod Http
pub mod Order
use microchat_ai.Prelude.{
  Outcome, returns, panics, leb_ℤ, if◌then◌else◌, ℕ, ℤ, zero, suc, pos, none, some, Option, Bytes,
  bytes, List, [], ◌∷◌, ◌++◌, Bool, true, false, ite, Bytes_discrete, decimal, decimal_ℤ,
}
use microchat_ai.Config.{Config, Environment, Loaded, loaded, required, invalid, load_config}
use microchat_ai.Store.{SessionStore, cleanup_idle_sessions}

pub data HttpServer : Type 0 where
  pprof metrics : HttpServer

-- What main does that others see.
pub data Action : Type 0 where
  registers_chat_service : Action
  registers_reflection : Action
  listens : Bytes → Action
  starts_session_cleanup : Action
  serves_http : HttpServer → Bytes → Action
  starts_metrics_updater : Action
  serves_grpc : Action
  stops_session_cleanup : Action
  stops_rate_limiter : Action
  shuts_down : HttpServer → Action
  stops_grpc : Action
  exits_with_1 crashes : Action

-- What main meets: the environment, whether the certificate and the key load, and whether the
-- address is free.
pub record Host (Float : Type 0) : Type 0 where
  pub environment : Environment Float
  pub load_certificate : Bytes → Bytes → Bool
  pub can_listen : Bytes → Bool

abbrev or_file : Bytes → Bytes → Bytes
or_file default [] = default
or_file default (c ∷ s) = c ∷ s

abbrev clean_at : SessionStore → List ℕ → SessionStore
clean_at s [] = s
clean_at s (now ∷ ticks) = clean_at (cleanup_idle_sessions s now) ticks

-- The goroutine of the cleanup over the times of its ticks, up to the stop. time.NewTicker panics
-- for an interval that is not positive.
unfoldable pub clean_sessions : ℤ → SessionStore → List ℕ → Outcome SessionStore
clean_sessions interval s ticks =
    if leb_ℤ interval (pos 0) then panics else returns (clean_at s ticks)

module _ {Float : Type 0} (host : Host Float) where
  open host.environment use {getenv}

  -- From the signal on.
  abbrev pub shutdown : List Action
  shutdown =
      stops_session_cleanup
      ∷ stops_rate_limiter
      ∷ shuts_down pprof
      ∷ shuts_down metrics
      ∷ stops_grpc
      ∷ []

  -- What follows the start of the cleanup.
  abbrev pub started : Config Float → List Action
  started cfg =
      serves_http pprof (bytes "127.0.0.1:" ++ decimal cfg.pprof_port)
      ∷ serves_http metrics (bytes ":" ++ decimal cfg.metrics_port)
      ∷ starts_metrics_updater
      ∷ serves_grpc
      ∷ shutdown

  -- From the listener on. A panic of the ticker ends the program; what main still starts before the
  -- goroutine gets that far is left out.
  abbrev pub running : Config Float → List Action
  running cfg =
      starts_session_cleanup
      ∷ (if leb_ℤ cfg.session_cleanup_interval (pos 0) then crashes ∷ [] else started cfg)

  abbrev pub address : Config Float → Bytes
  address cfg = bytes ":" ++ decimal_ℤ cfg.port

  abbrev pub listening : Config Float → Bool → List Action
  listening cfg true = listens (address cfg) ∷ running cfg
  listening cfg false = exits_with_1 ∷ []

  abbrev pub reflection : Config Float → List Action
  reflection cfg = ite (Bytes_discrete cfg.env (bytes "development")) (registers_reflection ∷ []) []

  abbrev pub with_credentials : Config Float → Bool → List Action
  with_credentials cfg true =
      registers_chat_service ∷ reflection cfg ++ listening cfg (host.can_listen (address cfg))
  with_credentials cfg false = exits_with_1 ∷ []

  abbrev pub with_config : Loaded (Config Float) → List Action
  with_config (loaded cfg) = with_credentials cfg (
      host.load_certificate (or_file (bytes "certs/server.crt") (getenv (bytes "TLS_CERT_FILE")))
        (or_file (bytes "certs/server.key") (getenv (bytes "TLS_KEY_FILE"))))
  with_config (required name) = exits_with_1 ∷ []
  with_config (invalid name) = exits_with_1 ∷ []

  -- The actions of main, with a signal at the end of the run.
  unfoldable pub main : List Action
  main = with_config (load_config host.environment)

-- ===== src/Main/Order.antt =====
-- When main registers reflection, and what has been started when it exits.
use microchat_ai.Prelude.{
  Bool-cases, inl, inr, leb_ℤ, pos, bytes, List, [], ◌∷◌, ◌++◌, Bool, true, false, ◌≡◌, refl, ite,
  Bytes_discrete, ◌||◌, ◌∙◌, sym,
}
use microchat_ai.Config.{Config, Loaded, loaded, required, invalid, load_config}
use microchat_ai.Main.{
  Action, registers_reflection, exits_with_1, Host, main, with_config, with_credentials, listening,
  address, serves_http, starts_session_cleanup, starts_metrics_updater, serves_grpc,
}

abbrev is_reflection : Action → Bool
is_reflection registers_reflection = true
is_reflection _ = false

abbrev is_exit : Action → Bool
is_exit exits_with_1 = true
is_exit _ = false

abbrev some_is : (Action → Bool) → List Action → Bool
some_is test [] = false
some_is test (action ∷ more) = test action || some_is test more

abbrev is_start : Action → Bool
is_start starts_session_cleanup = true
is_start (serves_http server address) = true
is_start starts_metrics_updater = true
is_start serves_grpc = true
is_start _ = false

-- A list with an action in front of it under a condition.
conditional :
    {P : Type 0} (d : Dec P) (rest : List Action)
    → some_is is_reflection rest ≡ false
    → some_is is_reflection (ite d (registers_reflection ∷ []) [] ++ rest) ≡ true
    → P
conditional (yes p) rest none_ h = p
conditional (no p) rest none_ h = cc

conditional-exit :
    {P : Type 0} (d : Dec P) (rest : List Action) (test : Action → Bool)
    → test registers_reflection ≡ false
    → some_is test (ite d (registers_reflection ∷ []) [] ++ rest) ≡ some_is test rest
conditional-exit (yes p) rest test e = rw e refl
conditional-exit (no p) rest test e = refl

listening-reflection :
    {Float : Type 0} (host : Host Float) (cfg : Config Float) (free : Bool)
    → some_is is_reflection (listening host cfg free) ≡ false
listening-reflection host cfg true =
    elim (Bool-cases (leb_ℤ cfg.session_cleanup_interval (pos 0))) [
      | inl panics ↦ rw (panics, some_is) refl
      | inr runs ↦ rw (runs, some_is) refl
    ]
listening-reflection host cfg false = refl

with_credentials-reflection :
    {Float : Type 0} (host : Host Float) (cfg : Config Float) (loads : Bool)
    → some_is is_reflection (with_credentials host cfg loads) ≡ true
    → cfg.env ≡ bytes "development"
with_credentials-reflection host cfg false h = cc
with_credentials-reflection host cfg true h =
    let free = host.can_listen (address host cfg) in
    conditional (Bytes_discrete cfg.env (bytes "development")) (listening host cfg free)
      (listening-reflection host cfg free) h

listening-exit :
    {Float : Type 0} (host : Host Float) (cfg : Config Float) (free : Bool)
    → some_is is_exit (listening host cfg free) ≡ true
    → some_is is_start (listening host cfg free) ≡ false
listening-exit host cfg true h = elim (Bool-cases (leb_ℤ cfg.session_cleanup_interval (pos 0))) [
  | inl panics ↦ cc (rw (panics, some_is) at h)
  | inr runs ↦ cc (rw (runs, some_is) at h)
]
listening-exit host cfg false h = refl

with_credentials-exit :
    {Float : Type 0} (host : Host Float) (cfg : Config Float) (loads : Bool)
    → some_is is_exit (with_credentials host cfg loads) ≡ true
    → some_is is_start (with_credentials host cfg loads) ≡ false
with_credentials-exit host cfg false h = refl
with_credentials-exit host cfg true h =
    let free = host.can_listen (address host cfg) in
    let d = Bytes_discrete cfg.env (bytes "development") in
    conditional-exit d (listening host cfg free) is_start refl
    ∙ listening-exit host cfg free
        (sym (conditional-exit d (listening host cfg free) is_exit refl) ∙ h)

module _ {Float : Type 0} (host : Host Float) where
  -- The setting under which `main` gets as far as the listener.
  abbrev pub IsDevelopment : Type 0
  IsDevelopment =
      (cfg : Config Float) × (load_config host.environment ≡ loaded cfg)
      × (cfg.env ≡ bytes "development")

  with_config-reflection :
      (o : Loaded (Config Float))
      → load_config host.environment ≡ o
      → some_is is_reflection (with_config host o) ≡ true
      → IsDevelopment
  with_config-reflection (required name) e h = cc
  with_config-reflection (invalid name) e h = cc
  with_config-reflection (loaded cfg) e h = (cfg, e, with_credentials-reflection host cfg _ h)

  -- If main registers reflection, the configuration loads, and APP_ENV is "development".
  main-reflection : some_is is_reflection (main host) ≡ true → IsDevelopment
  unfolding main
  main-reflection h = with_config-reflection (load_config host.environment) refl h

  with_config-exit :
      (o : Loaded (Config Float))
      → some_is is_exit (with_config host o) ≡ true
      → some_is is_start (with_config host o) ≡ false
  with_config-exit (required name) h = refl
  with_config-exit (invalid name) h = refl
  with_config-exit (loaded cfg) h = with_credentials-exit host cfg _ h

  -- If main exits with an error, it has started none of its goroutines and servers, so there is
  -- nothing to stop.
  main-exit : some_is is_exit (main host) ≡ true → some_is is_start (main host) ≡ false
  unfolding main
  main-exit h = with_config-exit (load_config host.environment) h

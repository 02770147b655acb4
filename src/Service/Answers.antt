-- ===== src/Service/Answers.antt =====
-- Every request is answered.
use microchat_ai.Prelude.{
  Option-cases, Bytes, Option, none, some, returns, List, [], ◌∷◌, ◌≡◌, refl, subst, Bytes_discrete,
  true, false, inl, inr, ◌⊎◌, leb_ℤ, pos, ℕ_discrete,
}
use microchat_ai.GoMap.{GoMap}
use microchat_ai.Grpc.{Status, Result, ok, err, Context, resource_exhausted, invalid_argument}
use microchat_ai.RateLimit.{Rate}
use microchat_ai.Config.{Config, Environment, load_config, loaded, session_store_of}
use microchat_ai.Handlers.{Server, Application, start_session, health}
use microchat_ai.Handlers.Validate.{validate_session_id}
use microchat_ai.Handlers.History.{get_history}
use microchat_ai.Handlers.Chat.{Others, ChatRequest, ChatResponse}
use microchat_ai.Handlers.Chat.Total.{chat-returns, Belongs}
use microchat_ai.Store.{SessionStore, get_formatted_messages}
use microchat_ai.Store.History.{
  IsSound, register_session-IsSound, cleanup_idle_sessions-IsSound, run,
}
use microchat_ai.Service.{
  Running, Times, Request, probes, starts, recalls, chats, Response, serve, serve_all, passed,
  Passed, converse, new_application, after, serve_chat, start, serve_start_session, probe, recall,
  probed, started, start_session_method, recalled, get_history_method, chatted, chat_method,
  spending_limiter, Step, ticks, requests, tick, run_server,
}
use microchat_ai.Interceptor.{health_method, auth_interceptor, rate_limit_interceptor, chain}
use microchat_ai.Interceptor.Gate.{
  IsGate, GateError, Exhausted, auth_interceptor-IsGate, verdict-Exhausted, after_auth-IsGate,
}
use microchat_ai.Config.Limits.{load_config-IsSound}

IsSound-of_run : (s s' : SessionStore) → run s [] ≡ returns s' → IsSound s' → IsSound s
unfolding run
IsSound-of_run s s' ran g = subst IsSound {x = s'} {y = s} (cc) g

abbrev IsInvalid : Option Status → Type 0
IsInvalid none = Unit
IsInvalid (some status) = status.code ≡ invalid_argument

validate_session_id-IsInvalid :
    (parse_uuid : Bytes → Option Bytes) (id : Bytes) → IsInvalid (validate_session_id parse_uuid id)
unfolding validate_session_id
validate_session_id-IsInvalid parse_uuid [] = refl
validate_session_id-IsInvalid parse_uuid (c ∷ s) = elim (Option-cases (parse_uuid (c ∷ s))) [
  | inl valid ↦ rw (valid, IsInvalid) tt
  | inr (e, invalid) ↦ rw (invalid, IsInvalid) refl
]

module _ (rate : Rate) (server : Server) (api_keys : GoMap Bytes) where
  abbrev pub IsUp : Running rate → Type 0
  IsUp r = IsSound r.app.session_store

  pub start-IsUp :
      (r : Running rate) (id : Bytes) (p : Passed rate server api_keys)
      → IsUp r
      → IsUp (start rate server api_keys r id p).0
  unfolding start_session
  start-IsUp r id (st, il, err e) g = g
  start-IsUp r id (st, il, ok ctx) g = register_session-IsSound r.app.session_store id g

  pub converse-IsUp :
      (r : Running rate) (t : Times) (others : Others) (req : ChatRequest)
      (p : Passed rate server api_keys)
      → IsUp r
      → (a : Running rate × Result ChatResponse) × (converse rate server api_keys r t others req p
          ≡ returns a)
        × IsUp a.0
        × Belongs req a.1
  converse-IsUp r t others req (st, il, err e) g = (_, refl, g, tt)
  converse-IsUp r t others req (st, il, ok ctx) g =
      let ((app, result), e, h, own) = chat-returns server others t.stored t.answered r.app req g in
      ((after rate server api_keys st il app, result), rw e refl, h, own)

  passed-IsGate :
      (r : Running rate) (t : Times) (method : Bytes) (ctx : Context)
      → GateError (passed rate server api_keys r t method ctx).2
  unfolding chain
  passed-IsGate r t method ctx =
      after_auth-IsGate rate r.limiter t.now t.at
        (auth_interceptor (spending_limiter t) api_keys r.spending method ctx)
        (auth_interceptor-IsGate (spending_limiter t) api_keys r.spending method ctx)

  -- Health is true, and only the rate limiter refuses it; StartSession gives its new id, and
  -- GetHistory the session that was asked for, unless the interceptors refuse the request, or the
  -- id is no UUID; a response of Chat is for the session of the request.
  abbrev pub Fits : Request → Response → Type 0
  Fits (probes t ctx) (probed (ok healthy)) = healthy ≡ true
  Fits (probes t ctx) (probed (err e)) = e.code ≡ resource_exhausted
  Fits (starts t ctx id) (started (ok session_id)) = session_id ≡ id
  Fits (starts t ctx id) (started (err e)) = IsGate e.code
  Fits (recalls t ctx id) (recalled (ok history)) = history.session_id ≡ id
  Fits (recalls t ctx id) (recalled (err e)) = IsGate e.code ⊎ (e.code ≡ invalid_argument)
  Fits (chats t others ctx req) (chatted result) = Belongs req result
  Fits _ _ = ⊥

  -- Each request has its response, in order.
  abbrev pub AllFit : List Step → List Response → Type 0
  AllFit [] [] = Unit
  AllFit (ticks now ∷ steps) responses = AllFit steps responses
  AllFit (requests request ∷ steps) (response ∷ responses) =
      Fits request response × AllFit steps responses
  AllFit _ _ = ⊥

  -- The health check passes AuthInterceptor.
  passed-Exhausted :
      (r : Running rate) (t : Times) (ctx : Context)
      → Exhausted (passed rate server api_keys r t health_method ctx).2
  unfolding chain auth_interceptor rate_limit_interceptor Bytes_discrete ℕ_discrete
  passed-Exhausted r t ctx = verdict-Exhausted rate ctx _

  probe-IsUp :
      (r : Running rate) (t : Times) (ctx : Context) (p : Passed rate server api_keys)
      → IsUp r
      → Exhausted p.2
      → IsUp (probe rate server api_keys r p).0
        × Fits (probes t ctx) (probed (probe rate server api_keys r p).1)
  unfolding health
  probe-IsUp r t ctx (st, il, err e) g h = (g, h)
  probe-IsUp r t ctx (st, il, ok ctx') g h = (g, refl)

  start-Fits :
      (r : Running rate) (t : Times) (ctx : Context) (id : Bytes) (p : Passed rate server api_keys)
      → GateError p.2
      → Fits (starts t ctx id) (started (start rate server api_keys r id p).1)
  unfolding start_session
  start-Fits r t ctx id (st, il, err e) h = h
  start-Fits r t ctx id (st, il, ok ctx') h = refl

  get_history-Fits :
      (t : Times) (ctx : Context) (app : Application) (id : Bytes)
      → Fits (recalls t ctx id) (recalled (get_history server app id))
  unfolding get_history
  get_history-Fits t ctx app id =
      checked (validate_session_id server.parse_uuid id)
        (validate_session_id-IsInvalid server.parse_uuid id)
    where
      checked :
          (o : Option Status)
          → IsInvalid o
          → Fits (recalls t ctx id) (
              recalled (elim o [
                | some status ↦ err status
                | none ↦ ok (record {
                  session_id = id;
                  messages = get_formatted_messages app.session_store id;
                })
              ]))
      checked none h = refl
      checked (some status) h = inr h

  recall-IsUp :
      (r : Running rate) (t : Times) (ctx : Context) (id : Bytes) (p : Passed rate server api_keys)
      → IsUp r
      → GateError p.2
      → IsUp (recall rate server api_keys r id p).0
        × Fits (recalls t ctx id) (recalled (recall rate server api_keys r id p).1)
  recall-IsUp r t ctx id (st, il, err e) g h = (g, inl h)
  recall-IsUp r t ctx id (st, il, ok ctx') g h = (g, get_history-Fits t ctx r.app id)

  serve-IsUp :
      (r : Running rate) (request : Request)
      → IsUp r
      → (a : Running rate × Response) × (serve rate server api_keys r request ≡ returns a)
        × IsUp a.0
        × Fits request a.1
  unfolding serve serve_chat serve_start_session
  serve-IsUp r (probes t ctx) g =
      let p = passed rate server api_keys r t health_method ctx in
      let (up, fits) = probe-IsUp r t ctx p g (passed-Exhausted r t ctx) in (_, refl, up, fits)
  serve-IsUp r (starts t ctx id) g =
      let p = passed rate server api_keys r t start_session_method ctx in
      (
        _,
        refl,
        start-IsUp r id p g,
        start-Fits r t ctx id p (passed-IsGate r t start_session_method ctx),
      )
  serve-IsUp r (recalls t ctx id) g =
      let p = passed rate server api_keys r t get_history_method ctx in
      let (up, fits) = recall-IsUp r t ctx id p g (passed-IsGate r t get_history_method ctx) in
      (_, refl, up, fits)
  serve-IsUp r (chats t others ctx req) g =
      let (a, e, h, own) =
        converse-IsUp r t others req (passed rate server api_keys r t chat_method ctx) g in
      ((a.0, chatted a.1), rw e refl, h, own)

  serve_all-IsUp :
      (steps : List Step) (r : Running rate)
      → IsUp r
      → (a : Running rate × List Response) × (serve_all rate server api_keys r steps ≡ returns a)
        × IsUp a.0
        × AllFit steps a.1
  unfolding serve_all tick
  serve_all-IsUp [] r g = ((r, []), refl, g, tt)
  serve_all-IsUp (ticks now ∷ more) r g =
      serve_all-IsUp more (tick rate server api_keys r now)
        (cleanup_idle_sessions-IsSound r.app.session_store now g)
  serve_all-IsUp (requests request ∷ more) r g =
      let (a, e, h, fits) = serve-IsUp r request g in
      let (b, e', h', all_fit) = serve_all-IsUp more a.0 h in
      ((b.0, a.1 ∷ b.1), rw (e, e') refl, h', (fits, all_fit))

module _ (rate : Rate) (server : Server) (e : Environment rate.Limit)
    (cfg : Config rate.Limit) where
  load_config-IsUp : load_config e ≡ loaded cfg → IsSound (session_store_of cfg)
  load_config-IsUp h =
      let (s, ran, g) = load_config-IsSound e cfg [] h in
      IsSound-of_run (session_store_of cfg) s ran g

  -- A server that main has started, with a configuration that loads and has a positive interval of
  -- the cleanup, answers every request, whatever the requests, their order, their keys, times and
  -- dates, the ticks of the cleanup between them, and the calls of other requests between the steps
  -- of a Chat. Each request gets its response: Health is true, StartSession gives the new id,
  -- GetHistory and Chat answer for the session that was asked for, or the response is an error,
  -- which for the first three has one of the codes of the interceptors or, from GetHistory,
  -- InvalidArgument. The store stays sound.
  pub run_server-AllFit :
      (steps : List Step)
      → load_config e ≡ loaded cfg
      → leb_ℤ cfg.session_cleanup_interval (pos 0) ≡ false
      → (a : Running rate × List Response) × (run_server rate server cfg steps ≡ returns a)
        × IsUp rate server cfg.api_keys a.0
        × AllFit rate server cfg.api_keys steps a.1
  unfolding run_server new_application
  run_server-AllFit steps h positive = rw positive (
      serve_all-IsUp rate server cfg.api_keys steps (new_application rate cfg) (load_config-IsUp h))

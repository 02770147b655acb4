-- ===== src/Service.antt =====
-- cmd/server/main.go: the server that main puts together. A request passes the two interceptors,
-- and then the handler of its method.
pub mod Answers
pub mod Reply
pub mod RoundTrip
use microchat_ai.Prelude.{
  ℕ, pos, Bytes, bytes, Outcome, returns, panics, leb_ℤ, if◌then◌else◌, ◌>>=◌, List, [], ◌∷◌, Bool,
}
use microchat_ai.GoMap.{GoMap}
use microchat_ai.Grpc.{Context, Result, ok, err}
use microchat_ai.RateLimit.{Rate, IpLimiter, new_ip_limiter}
use microchat_ai.Spending.{SpendingTracker, new_spending_tracker, can_make_call, record_call}
use microchat_ai.Interceptor.{SpendingLimiter, chain, health_method}
use microchat_ai.Store.{cleanup_idle_sessions}
use microchat_ai.Config.{Config, session_store_of}
use microchat_ai.Handlers.{Server, Application, start_session, health}
use microchat_ai.Handlers.History.{get_history, HistoryResponse}
use microchat_ai.Handlers.Chat.{Others, ChatRequest, ChatResponse, chat}

abbrev pub get_history_method : Bytes
get_history_method = bytes "/chat.ChatService/GetHistory"

-- What the running server keeps.
pub record Running (rate : Rate) : Type 0 where
  pub app : Application
  pub spending : SpendingTracker
  pub limiter : IpLimiter rate

abbrev pub chat_method : Bytes
chat_method = bytes "/chat.ChatService/Chat"

abbrev pub start_session_method : Bytes
start_session_method = bytes "/chat.ChatService/StartSession"

-- When a request meets its steps: the dates on which CanMakeCall and RecordCall run, in seconds at
-- the rate limiter, on the clock of the bucket, and at the two appends of Chat.
pub record Times : Type 0 where
  pub checked : Bytes
  pub recorded : Bytes
  pub now : ℕ
  pub at : ℕ
  pub stored : ℕ
  pub answered : ℕ

-- The tracker as a SpendingLimiter; each of the two reads the date.
abbrev pub spending_limiter : Times → SpendingLimiter SpendingTracker
spending_limiter t = record {
  can_make_call = λ st key. can_make_call st t.checked key;
  record_call = λ st key. record_call st t.recorded key;
}

-- A request as it reaches the server: of Health, of StartSession (with the id that it will get), of
-- GetHistory and of Chat.
pub data Request : Type 0 where
  probes : Times → Context → Request
  starts : Times → Context → Bytes → Request
  recalls : Times → Context → Bytes → Request
  chats : Times → Others → Context → ChatRequest → Request

pub data Response : Type 0 where
  probed : Result Bool → Response
  started : Result Bytes → Response
  recalled : Result HistoryResponse → Response
  chatted : Result ChatResponse → Response

-- A request, or a tick of the ticker of the cleanup.
pub data Step : Type 0 where
  requests : Request → Step
  ticks : ℕ → Step

module _ (rate : Rate) where
  -- The application that main builds.
  unfoldable pub new_application : Config rate.Limit → Running rate
  new_application cfg = record {
    app = record { session_store = session_store_of cfg; metrics = [] };
    spending = new_spending_tracker (pos cfg.daily_call_limit);
    limiter = new_ip_limiter rate cfg.rate_limit_rps (pos cfg.rate_limit_burst);
  }

  module _ (server : Server) (api_keys : GoMap Bytes) where
    abbrev pub Passed : Type 0
    Passed = SpendingTracker × IpLimiter rate × Result Context

    abbrev pub passed : Running rate → Times → Bytes → Context → Passed
    passed r t method ctx =
        chain rate (spending_limiter t) api_keys r.spending r.limiter t.now t.at method ctx

    -- The server after the interceptors and a handler.
    abbrev pub after : SpendingTracker → IpLimiter rate → Application → Running rate
    after st il app = record { app = app; spending = st; limiter = il }

    abbrev probe : Running rate → Passed → Running rate × Result Bool
    probe r (st, il, err e) = (after st il r.app, err e)
    probe r (st, il, ok ctx) = (after st il r.app, ok health)

    abbrev start : Running rate → Bytes → Passed → Running rate × Result Bytes
    start r id (st, il, err e) = (after st il r.app, err e)
    start r id (st, il, ok ctx) =
        let (app, session_id) = start_session r.app id in (after st il app, ok session_id)

    abbrev pub recall : Running rate → Bytes → Passed → Running rate × Result HistoryResponse
    recall r id (st, il, err e) = (after st il r.app, err e)
    recall r id (st, il, ok ctx) = (after st il r.app, get_history server r.app id)

    abbrev pub converse :
        Running rate
        → Times
        → Others
        → ChatRequest
        → Passed
        → Outcome (Running rate × Result ChatResponse)
    converse r t others req (st, il, err e) = returns (after st il r.app, err e)
    converse r t others req (st, il, ok ctx) = do
      (app, result) ← chat server others t.stored t.answered r.app req
      returns (after st il app, result)

    unfoldable pub serve_start_session :
        Running rate → Times → Context → Bytes → Running rate × Result Bytes
    unfolding start_session
    serve_start_session r t ctx id = start r id (passed r t start_session_method ctx)

    unfoldable pub serve_chat :
        Running rate
        → Times
        → Others
        → Context
        → ChatRequest
        → Outcome (Running rate × Result ChatResponse)
    serve_chat r t others ctx req = converse r t others req (passed r t chat_method ctx)

    -- A cleanup.
    unfoldable pub tick : Running rate → ℕ → Running rate
    tick r now = record r {
      app = record r.app { session_store = cleanup_idle_sessions r.app.session_store now };
    }

    -- One request, and the response to it.
    unfoldable pub serve : Running rate → Request → Outcome (Running rate × Response)
    unfolding serve_chat serve_start_session
    serve r (probes t ctx) =
        let (r', result) = probe r (passed r t health_method ctx) in returns (r', probed result)
    serve r (starts t ctx id) =
        let (r', result) = serve_start_session r t ctx id in returns (r', started result)
    serve r (recalls t ctx id) =
        let (r', result) = recall r id (passed r t get_history_method ctx) in
        returns (r', recalled result)
    serve r (chats t others ctx req) = do
      (r', result) ← serve_chat r t others ctx req
      returns (r', chatted result)

    -- The steps of the server, the requests where they end.
    unfoldable pub serve_all : Running rate → List Step → Outcome (Running rate × List Response)
    unfolding serve tick
    serve_all r [] = returns (r, [])
    serve_all r (ticks now ∷ more) = serve_all (tick r now) more
    serve_all r (requests request ∷ more) = do
      (r', response) ← serve r request
      (r'', responses) ← serve_all r' more
      returns (r'', response ∷ responses)

  -- The server of a configuration, from its start. For an interval that is not positive,
  -- time.NewTicker panics in the goroutine of the cleanup, which ends the program; what the server
  -- may answer before that is left out.
  unfoldable pub run_server :
      Server → Config rate.Limit → List Step → Outcome (Running rate × List Response)
  unfolding new_application serve_all
  run_server server cfg steps =
      if leb_ℤ cfg.session_cleanup_interval (pos 0)
      then panics
      else serve_all server cfg.api_keys (new_application cfg) steps

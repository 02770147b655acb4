-- ===== src/Service/Reply.antt =====
-- What a response to Chat means, through the interceptors and the handler.
use microchat_ai.Prelude.{ℕ, Bytes, returns, ◌≡◌, refl, sym, ap, ◌≢◌, >>=-returns, ◌∙◌}
use microchat_ai.GoMap.{GoMap}
use microchat_ai.Grpc.{Context, Result, ok, err}
use microchat_ai.RateLimit.{Rate, IpLimiter}
use microchat_ai.Spending.{SpendingTracker, record_call}
use microchat_ai.Interceptor.{health_method, auth_interceptor, after_auth, chain}
use microchat_ai.Interceptor.Auth.{Allowed, auth_interceptor_sound}
use microchat_ai.Handlers.{Server}
use microchat_ai.Handlers.Chat.{ChatRequest, ChatResponse, chat}
use microchat_ai.Handlers.Chat.Alone.{alone}
use microchat_ai.Handlers.Chat.Contract.{Success}
use microchat_ai.Handlers.Chat.RoundTrip.{success-of}
use microchat_ai.Store.History.{IsSound}
use microchat_ai.Service.{
  Running, Times, chat_method, serve_chat, spending_limiter, Passed, passed, converse,
}

not_health : chat_method ≢ health_method
not_health e = cc

after_auth-ok :
    {S : Type 0} (rate : Rate) (il il' : IpLimiter rate) (now at : ℕ) (a : S × Result Context)
    (s : S) (ctx : Context)
    → after_auth rate il now at a ≡ (s, il', ok ctx)
    → (ctx' : Context) × (a ≡ (s, ok ctx'))
after_auth-ok rate il il' now at (s', err e) s ctx h = cc
after_auth-ok rate il il' now at (s', ok c) s ctx h = (c, cc)

pub returns-pair {ℓ κ} :
    {A : Type ℓ} {B : Type κ} {p q : A × B} → returns p ≡ returns q → (p.0 ≡ q.0) × (p.1 ≡ q.1)
returns-pair e = (cc, cc)

module _ (rate : Rate) (server : Server) (api_keys : GoMap Bytes) (r r' : Running rate) (t : Times)
    (ctx : Context) (req : ChatRequest) (response : ChatResponse) where
  -- The request carried a configured key with a call left for the day; the call is recorded; and
  -- the handler succeeded.
  pub record Replied : Type 0 where
    pub key : Bytes
    pub role : Bytes
    pub allowed : Allowed (spending_limiter t) api_keys r.spending chat_method ctx key role
    pub recorded : r'.spending ≡ record_call r.spending t.recorded key
    pub success : Success server t.stored t.answered r.app.session_store req r'.app response

  passed-ok :
      (st : SpendingTracker) (il : IpLimiter rate) (ctx' : Context)
      → passed rate server api_keys r t chat_method ctx ≡ (st, il, ok ctx')
      → (ctx'' : Context) × (auth_interceptor
            (spending_limiter t)
            api_keys
            r.spending
            chat_method
            ctx
          ≡ (st, ok ctx''))
  unfolding chain
  passed-ok st il ctx' h =
      after_auth-ok rate r.limiter il t.now t.at
        (auth_interceptor (spending_limiter t) api_keys r.spending chat_method ctx) st ctx' h

  -- Behind a response stand the handler's, and the tracker after the interceptors.
  pub converse-ok :
      (st : SpendingTracker) (il : IpLimiter rate) (ctx' : Context)
      → converse rate server api_keys r t alone req (st, il, ok ctx') ≡ returns (r', ok response)
      → (chat server alone t.stored t.answered r.app req ≡ returns (r'.app, ok response))
        × (r'.spending ≡ st)
  converse-ok st il ctx' h =
      let ((app, result), chatted, done) =
        >>=-returns (chat server alone t.stored t.answered r.app req) _ h in
      let (same, answered) = returns-pair done in
      (chatted ∙ (λ i. returns ((same i).app, answered i)), sym (ap (λ q. q.spending) same))

  converse-Replied :
      (p : Passed rate server api_keys)
      → passed rate server api_keys r t chat_method ctx ≡ p
      → IsSound r.app.session_store
      → converse rate server api_keys r t alone req p ≡ returns (r', ok response)
      → Replied
  converse-Replied (st, il, err e) from g h = cc
  converse-Replied (st, il, ok ctx') from g h =
      let (ctx'', signed) = passed-ok st il ctx' from in
      let (key, role, allowed, recorded, _) =
        auth_interceptor_sound (spending_limiter t) api_keys r.spending chat_method ctx st ctx''
          not_health signed in
      let (chatted, spent) = converse-ok st il ctx' h in
      let succeeded = success-of server t.stored t.answered r.app r'.app req response g chatted in
      record {
        key = key;
        role = role;
        allowed = allowed;
        recorded = spent ∙ recorded;
        success = succeeded.3;
      }

  -- On a running server with a sound store, while no other request touches the store: if a request
  -- of Chat gets a response, it carried a configured key, with a call left for the day, as its
  -- bearer token; the call is recorded for that key; the provider was asked with the history and
  -- the message; and the history of the session has grown by the message and the sanitised answer,
  -- which is the reply of the response, with the new number of messages (modulo 2^32).
  pub serve_chat-Replied :
      IsSound r.app.session_store
      → serve_chat rate server api_keys r t alone ctx req ≡ returns (r', ok response)
      → Replied
  unfolding serve_chat
  serve_chat-Replied g h =
      converse-Replied (passed rate server api_keys r t chat_method ctx) refl g h

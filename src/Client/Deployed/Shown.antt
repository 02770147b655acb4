-- ===== src/Client/Deployed/Shown.antt =====
-- What the user of the client sees.
use microchat_ai.Prelude.{
  Bytes, [], ◌∷◌, ◌++◌, Outcome, returns, panics, diverges, ◌≡◌, refl, ◌%◌, ◌^◌, length, All, ap,
  sym, ◌∙◌, subst, Bytes_discrete, ℕ_discrete, bytes, List, some,
}
use microchat_ai.GoMap.{GoMap, get}
use microchat_ai.RateLimit.{Rate}
use microchat_ai.Handlers.{Server}
use microchat_ai.Handlers.Chat.{ChatResponse}
use microchat_ai.Handlers.Chat.Alone.{alone, message_of}
use microchat_ai.Handlers.Sanitize.Safe.{IsSafe, sanitize_for_terminal-IsSafe}
use microchat_ai.Store.{get_messages}
use microchat_ai.Store.History.{IsSound}
use microchat_ai.Session.{user, assistant}
use microchat_ai.Grpc.{Result, ok, err, md_get}
use microchat_ai.Service.{Running, serve_chat}
use microchat_ai.Service.Reply.{Replied, serve_chat-Replied}
use microchat_ai.Client.Chat.{
  Reply, replied, refused, broken, send_message, receive, Client, assistant_says, saw,
}
use microchat_ai.Client.Chat.Commands.{request_of}
use microchat_ai.Client.Deployed.{deployed, ended, Live, Setting, add_auth_context}
use microchat_ai.Interceptor.Auth.{Presents}
use microchat_ai.Interceptor.Limit.{append_cancel}

receive-replied :
    (c : Client) (reply : Reply ChatResponse) (text : Bytes)
    → (receive c reply).1 ≡ assistant_says text
    → (response : ChatResponse) × (reply ≡ replied response)
      × (response.reply ≡ text)
      × ((receive c reply).0.message_index ≡ response.message_count)
unfolding receive
receive-replied c (replied response) text h = (response, refl, cc, refl)
receive-replied c (refused status) text h = cc
receive-replied c broken text h = cc

-- What a reply that the client shows stands for.
pub record Seen (rate : Rate) (server : Server) (api_keys : GoMap Bytes) (setting : Setting)
    (api_key : Bytes) (c c' : Client) (live live' : Live rate) (message reply : Bytes)
    : Type 0 where
  pub response : ChatResponse
  pub replied :
      Replied rate server api_keys live.running live'.running
        (setting.times live.count)
        (add_auth_context api_key setting.peer)
        (request_of c message)
        response
  pub own : replied.key ≡ api_key
  pub history :
      get_messages live'.running.app.session_store c.session_id
      ≡ get_messages live.running.app.session_store c.session_id
        ++ message_of user message (setting.times live.count).stored
          ∷ message_of assistant reply (setting.times live.count).answered
          ∷ []
  pub index :
      c'.message_index ≡ length (get_messages live'.running.app.session_store c.session_id) % 2 ^ 32
  pub safe : All IsSafe reply

authorization-md_get :
    (md : GoMap (List Bytes)) (values : List Bytes)
    → some ((bytes "authorization", values) ∷ []) ≡ some md
    → md_get md (bytes "authorization") ≡ values
unfolding get Bytes_discrete ℕ_discrete
authorization-md_get md values e =
    subst (λ m. md_get m (bytes "authorization") ≡ values)
      {x = (bytes "authorization", values) ∷ []} {y = md} (cc) refl

first_value :
    (md : GoMap (List Bytes)) (value key : Bytes) (more : List Bytes)
    → some ((bytes "authorization", value ∷ []) ∷ []) ≡ some md
    → md_get md (bytes "authorization") ≡ key ∷ more
    → key ≡ value
first_value md value key more e h = cc (authorization-md_get md (value ∷ []) e, h)

module _ (rate : Rate) (server : Server) (api_keys : GoMap Bytes) (setting : Setting)
    (api_key : Bytes) where
  ended-replied :
      (live : Live rate) (o : Outcome (Running rate × Result ChatResponse))
      (response : ChatResponse)
      → (ended rate server api_keys setting api_key live o).2 ≡ replied response
      → (r : Running rate) × (o ≡ returns (r, ok response))
        × ((ended rate server api_keys setting api_key live o).0.running ≡ r)
  ended-replied live (returns (r, ok response')) response h = (r, cc, refl)
  ended-replied live (returns (r, err status)) response h = cc
  ended-replied live panics response h = cc
  ended-replied live diverges response h = cc

  own_key : (key : Bytes) → Presents (add_auth_context api_key setting.peer) key → key ≡ api_key
  unfolding add_auth_context get Bytes_discrete ℕ_discrete
  own_key key p =
      append_cancel (bytes "Bearer ") key api_key (first_value p.md _ _ p.more p.incoming p.header)

  Seen-of_Replied :
      (c c' : Client) (live live' : Live rate) (message reply : Bytes) (response : ChatResponse)
      → Replied rate server api_keys live.running live'.running
          (setting.times live.count)
          (add_auth_context api_key setting.peer)
          (request_of c message)
          response
      → response.reply ≡ reply
      → c'.message_index ≡ response.message_count
      → Seen rate server api_keys setting api_key c c' live live' message reply
  Seen-of_Replied c c' live live' message reply response p shown index =
      let said = sym (ap (λ x. x.reply) p.success.answered) ∙ shown in
      record {
        response = response;
        replied = p;
        own = own_key p.key p.allowed.presents;
        history =
            p.success.history
            ∙ ap
                (λ x.
                  get_messages live.running.app.session_store c.session_id
                  ++ message_of user message (setting.times live.count).stored
                    ∷ message_of assistant x (setting.times live.count).answered
                    ∷ [])
                said;
        index = index ∙ ap (λ x. x.message_count) p.success.answered;
        safe = subst (All IsSafe) said (sanitize_for_terminal-IsSafe p.success.text);
      }

  -- At a running server with a sound store, while no other request touches the store: if the client
  -- shows a reply to a message of the user, its API key is configured and had a call left for the
  -- day, the call is recorded for that key, the history of its session has grown by the message and the
  -- reply as it is shown, no byte of which can start an escape sequence, and the index of the
  -- client is the number of messages in that history (modulo 2^32).
  pub send_message-Seen :
      (c c' : Client) (live live' : Live rate) (message reply : Bytes)
      → IsSound live.running.app.session_store
      → send_message (deployed rate server api_keys setting api_key) c live message
        ≡ (c', live', assistant_says reply)
      → Seen rate server api_keys setting api_key c c' live live' message reply
  unfolding send_message
  send_message-Seen c c' live live' message reply g h =
      let o =
        serve_chat rate server api_keys live.running (setting.times live.count) alone
          (add_auth_context api_key setting.peer) (request_of c message) in
      let e = ended rate server api_keys setting api_key live o in
      let (response, answered, shown, index) =
        receive-replied (saw c e.1) e.2 reply (ap (λ p. p.2) h) in
      let (r, returned, running) = ended-replied live o response answered in
      let same = sym running ∙ ap (λ p. p.1.running) h in
      Seen-of_Replied c c' live live' message reply response
        (serve_chat-Replied rate server api_keys live.running live'.running
          (setting.times live.count) (add_auth_context api_key setting.peer) (request_of c message)
          response g (returned ∙ ap (λ q. returns (q, ok response)) same))
        shown (sym (ap (λ p. p.0.message_index) h) ∙ index)

-- ===== src/Service/RoundTrip.antt =====
-- What a request of GetHistory gets after one of Chat.
use microchat_ai.Prelude.{Bytes, returns, List, [], ◌∷◌, ◌++◌, ◌≡◌, sym, ap, >>=-returns, ◌∙◌}
use microchat_ai.GoMap.{GoMap}
use microchat_ai.Grpc.{Context, Result, ok, err}
use microchat_ai.RateLimit.{Rate}
use microchat_ai.Session.{formatted_string, user, assistant}
use microchat_ai.Store.{get_formatted_messages}
use microchat_ai.Store.History.{IsSound}
use microchat_ai.Handlers.{Server}
use microchat_ai.Handlers.History.{HistoryResponse, get_history}
use microchat_ai.Handlers.Chat.{ChatRequest, ChatResponse, chat}
use microchat_ai.Handlers.Chat.Alone.{alone, message_of}
use microchat_ai.Handlers.Chat.RoundTrip.{get_history-chat}
use microchat_ai.Service.{
  Running, Times, chats, recalls, chatted, recalled, chat_method, get_history_method, serve,
  serve_chat, Passed, passed, converse, recall,
}
use microchat_ai.Service.Reply.{converse-ok, returns-pair}

chatted_inj : {a b : Result ChatResponse} → chatted a ≡ chatted b → a ≡ b
chatted_inj e = cc

recalled_inj : {a b : Result HistoryResponse} → recalled a ≡ recalled b → a ≡ b
recalled_inj e = cc

returns_inj {ℓ} : {A : Type ℓ} {a b : A} → returns a ≡ returns b → a ≡ b
returns_inj e = cc

module _ (rate : Rate) (server : Server) (api_keys : GoMap Bytes) (r r' : Running rate) where
  -- The handler behind a response.
  converse-answered :
      (ctx : Context) (t : Times) (req : ChatRequest) (response : ChatResponse)
      (p : Passed rate server api_keys)
      → converse rate server api_keys r t alone req p ≡ returns (r', ok response)
      → chat server alone t.stored t.answered r.app req ≡ returns (r'.app, ok response)
  converse-answered ctx t req response (st, il, err e) h = cc
  converse-answered ctx t req response (st, il, ok ctx') h =
      (converse-ok rate server api_keys r r' t ctx req response st il ctx' h).0

  recall-ok :
      (id : Bytes) (history : HistoryResponse) (p : Passed rate server api_keys)
      → (recall rate server api_keys r id p).1 ≡ ok history
      → get_history server r.app id ≡ ok history
  recall-ok id history (st, il, err e) h = cc
  recall-ok id history (st, il, ok ctx) h = h

  serve-chats :
      (t : Times) (ctx : Context) (req : ChatRequest) (response : ChatResponse)
      → serve rate server api_keys r (chats t alone ctx req) ≡ returns (r', chatted (ok response))
      → chat server alone t.stored t.answered r.app req ≡ returns (r'.app, ok response)
  unfolding serve serve_chat
  serve-chats t ctx req response h =
      let ((r'', result), ran, done) =
        >>=-returns (serve_chat rate server api_keys r t alone ctx req) _ h in
      let (same, answered) = returns-pair done in
      converse-answered ctx t req response (passed rate server api_keys r t chat_method ctx)
        (ran ∙ (λ i. returns (same i, (chatted_inj answered) i)))

  serve-recalls :
      (t : Times) (ctx : Context) (id : Bytes) (history : HistoryResponse)
      → serve rate server api_keys r (recalls t ctx id) ≡ returns (r', recalled (ok history))
      → get_history server r.app id ≡ ok history
  unfolding serve
  serve-recalls t ctx id history h =
      let p = passed rate server api_keys r t get_history_method ctx in
      recall-ok id history p (recalled_inj (returns-pair h).1)

-- On a running server with a sound store, while no other request touches the store: if a request of
-- Chat gets a response, and one of GetHistory for the same session then gets one, under whatever
-- key, it holds what the history was before, with the user's message and the reply of the response
-- at the end, each with its role and its time.
pub serve-recalls_of_chats :
    (rate : Rate) (server : Server) (api_keys : GoMap Bytes) (r r' r'' : Running rate)
    (t t' : Times) (ctx ctx' : Context) (req : ChatRequest) (response : ChatResponse)
    (history : HistoryResponse)
    → IsSound r.app.session_store
    → serve rate server api_keys r (chats t alone ctx req) ≡ returns (r', chatted (ok response))
    → serve rate server api_keys r' (recalls t' ctx' req.session_id)
      ≡ returns (r'', recalled (ok history))
    → history.messages
      ≡ get_formatted_messages r.app.session_store req.session_id
        ++ formatted_string (message_of user req.message t.stored)
          ∷ formatted_string (message_of assistant response.reply t.answered)
          ∷ []
serve-recalls_of_chats rate server api_keys r r' r'' t t' ctx ctx' req response history g h k =
    let asked = serve-chats rate server api_keys r r' t ctx req response h in
    let told = serve-recalls rate server api_keys r' r'' t' ctx' req.session_id history k in
    let same = get_history-chat server t.stored t.answered r.app r'.app req response g asked in
    ap (λ o. messages_of o) (sym told ∙ same)
  where
    messages_of : Result HistoryResponse → List Bytes
    messages_of (ok h) = h.messages
    messages_of (err e) = []

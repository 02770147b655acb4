-- ===== src/Handlers/Chat/RoundTrip.antt =====
-- What GetHistory gives after Chat.
use microchat_ai.Prelude.{
  ℕ, none, refl, returns, map, List, ◌++◌, ◌≡◌, ◌∷◌, ap, [], subst, Bytes, ◌∙◌,
}
use microchat_ai.Grpc.{ok}
use microchat_ai.Handlers.{Server, Application}
use microchat_ai.Handlers.History.{get_history}
use microchat_ai.Store.{get_formatted_messages, get_messages, SessionStore}
use microchat_ai.Handlers.Chat.{ChatRequest, ChatResponse, chat}
use microchat_ai.Store.History.{IsSound}
use microchat_ai.Handlers.Chat.Alone.{alone, message_of}
use microchat_ai.Handlers.Chat.Contract.{Ended}
use microchat_ai.Session.{formatted_string, user, assistant, Message}
use microchat_ai.Handlers.Chat.Correct.{chat-Ended}
use microchat_ai.Handlers.Validate.{validate_session_id}

map-append {ℓ κ} :
    {A : Type ℓ} {B : Type κ} (f : A → B) (xs ys : List A) → map f (xs ++ ys) ≡ map f xs ++ map f ys
map-append f [] ys = refl
map-append f (x ∷ xs) ys = ap (◌∷◌ (f x)) (map-append f xs ys)

-- A response is a success.
pub success-of :
    (server : Server) (now now' : ℕ) (app app' : Application) (req : ChatRequest)
    (response : ChatResponse)
    → IsSound app.session_store
    → chat server alone now now' app req ≡ returns (app', ok response)
    → Ended server now now' app.session_store req (app', ok response)
success-of server now now' app app' req response g e =
    let (r, e', h) = chat-Ended server now now' app req g in
    subst (Ended server now now' app.session_store req) {x = r} {y = (app', ok response)}
      (cc (e, e')) h

get_history-valid :
    (server : Server) (app : Application) (id : Bytes)
    → validate_session_id server.parse_uuid id ≡ none
    → get_history server app id
      ≡ ok (record { session_id = id; messages = get_formatted_messages app.session_store id })
unfolding get_history
get_history-valid server app id valid = rw (valid, get_history) refl

get_formatted_messages-append :
    (s s' : SessionStore) (id : Bytes) (more : List Message)
    → get_messages s' id ≡ get_messages s id ++ more
    → get_formatted_messages s' id ≡ get_formatted_messages s id ++ map formatted_string more
unfolding get_formatted_messages
get_formatted_messages-append s s' id more e =
    ap (map formatted_string) e ∙ map-append formatted_string (get_messages s id) more

-- On a sound store, while no other request touches it: if Chat responds, GetHistory then gives what
-- it gave before, with the user's message and the reply of the response at the end, each with its
-- role and its time.
pub get_history-chat :
    (server : Server) (now now' : ℕ) (app app' : Application) (req : ChatRequest)
    (response : ChatResponse)
    → IsSound app.session_store
    → chat server alone now now' app req ≡ returns (app', ok response)
    → get_history server app' req.session_id
      ≡ ok (record {
        session_id = req.session_id;
        messages =
            get_formatted_messages app.session_store req.session_id
            ++ formatted_string (message_of user req.message now)
              ∷ formatted_string (message_of assistant response.reply now')
              ∷ [];
      })
get_history-chat server now now' app app' req response g e =
    let (valid, _, _, s) = success-of server now now' app app' req response g e in
    let reply = ap (λ x. x.reply) s.answered in
    rw (reply) (
      get_history-valid server app' req.session_id valid
      ∙ ap (λ messages. ok (record { session_id = req.session_id; messages = messages }))
          (get_formatted_messages-append app.session_store app'.session_store req.session_id _
            s.history))

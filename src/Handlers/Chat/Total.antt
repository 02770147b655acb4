-- ===== src/Handlers/Chat/Total.antt =====
-- Chat returns, whatever runs between its calls on the store.
use microchat_ai.Prelude.{
  none, some, Bool-cases, inl, inr, ℕ, refl, returns, Outcome, Bytes, ◌≡◌, Option, length,
}
use microchat_ai.Handlers.Chat.{
  answer, store_reply, accept, ask_stored, converse, chat, Others, ask, ChatRequest, ChatResponse,
  accept_checked, chat_checked,
}
use microchat_ai.Handlers.{Application, Server, with_store}
use microchat_ai.Llm.{Generated, failed, generated}
use microchat_ai.Grpc.{Result, ok, err, Status}
use microchat_ai.Store.{
  SessionStore, AppendError, get_messages_as_llm_format, get_messages, is_valid_session,
}
use microchat_ai.Store.History.{IsSound, run-IsSound, append_message-IsSound}
use microchat_ai.Session.{assistant, user}
use microchat_ai.Handlers.Sanitize.{sanitize_for_terminal}

-- A response is for the session of the request.
abbrev pub Belongs : ChatRequest → Result ChatResponse → Type 0
Belongs req (ok response) = response.session_id ≡ req.session_id
Belongs req (err status) = Unit

abbrev Done : ChatRequest → Outcome (Application × Result ChatResponse) → Type 0
Done req m =
    (r : Application × Result ChatResponse) × (m ≡ returns r)
    × IsSound (r.0).session_store
    × Belongs req r.1

answer-IsSound :
    (app : Application) (req : ChatRequest) (current : ℕ) (reply : Bytes)
    (r : SessionStore × Option AppendError)
    → IsSound r.0
    → IsSound ((answer app req current reply r).0).session_store
unfolding answer
answer-IsSound app req current reply (s, none) g = g
answer-IsSound app req current reply (s, some e) g = g

answer-Belongs :
    (app : Application) (req : ChatRequest) (current : ℕ) (reply : Bytes)
    (r : SessionStore × Option AppendError)
    → Belongs req (answer app req current reply r).1
unfolding answer
answer-Belongs app req current reply (s, none) = refl
answer-Belongs app req current reply (s, some e) = tt

store_reply-Done :
    (others : Others) (now : ℕ) (app : Application) (req : ChatRequest) (current : ℕ)
    (reply : Bytes)
    → IsSound app.session_store
    → Done req (store_reply others now app req current reply)
unfolding store_reply
store_reply-Done others now app req current reply g =
    let (s, e, h) = run-IsSound others.before_reply app.session_store g in
    let (r, e', h') = append_message-IsSound s now req.session_id assistant reply h in
    (
      answer app req current reply r,
      rw (e, e'),
      answer-IsSound app req current reply r h',
      answer-Belongs app req current reply r,
    )

accept_checked-Done :
    (others : Others) (now : ℕ) (app : Application) (req : ChatRequest) (current : ℕ)
    (reply : Bytes) (status : Option Status)
    → IsSound app.session_store
    → Done req (accept_checked others now app req current reply status)
unfolding accept_checked
accept_checked-Done others now app req current reply (some status) g = (_, refl, g, tt)
accept_checked-Done others now app req current reply none g =
    store_reply-Done others now app req current (sanitize_for_terminal reply) g

accept-Done :
    (server : Server) (others : Others) (now : ℕ) (app : Application) (req : ChatRequest)
    (current : ℕ) (name : Bytes) (result : Generated)
    → IsSound app.session_store
    → Done req (accept server others now app req current name result)
unfolding accept
accept-Done server others now app req current name (failed error) g = (_, refl, g, tt)
accept-Done server others now app req current name (generated reply) g =
    accept_checked-Done others now app req current reply _ g

ask_stored-Done :
    (server : Server) (others : Others) (now : ℕ) (app : Application) (req : ChatRequest)
    (current : ℕ) (r : SessionStore × Option AppendError)
    → IsSound r.0
    → Done req (ask_stored server others now app req current r)
unfolding ask_stored ask
ask_stored-Done server others now app req current (s, some error) g = (_, refl, g, tt)
ask_stored-Done server others now app req current (s, none) g =
    let (s', e, h) = run-IsSound others.before_context s g in
    rw e (
      accept-Done server others now (with_store app s') req current
        (server.get_provider req.model).name
        ((server.get_provider req.model).generate_response
          (get_messages_as_llm_format s' req.session_id))
        h)

converse-Done :
    (server : Server) (others : Others) (now now' : ℕ) (app : Application) (req : ChatRequest)
    → IsSound app.session_store
    → Done req (converse server others now now' app req)
unfolding converse
converse-Done server others now now' app req g =
    let (s, e, h) = run-IsSound others.before_count app.session_store g in
    let (s', e', h') = run-IsSound others.before_message s h in
    let (r, e'', h'') = append_message-IsSound s' now req.session_id user req.message h' in
    rw (e, e', e'')
      (ask_stored-Done server others now' app req (length (get_messages s req.session_id)) r h'')

chat_checked-Done :
    (server : Server) (others : Others) (now now' : ℕ) (app : Application) (req : ChatRequest)
    (id_error message_error : Option Status)
    → IsSound app.session_store
    → Done req (chat_checked server others now now' app req id_error message_error)
unfolding chat_checked
chat_checked-Done server others now now' app req (some status) message_error g = (_, refl, g, tt)
chat_checked-Done server others now now' app req none (some status) g = (_, refl, g, tt)
chat_checked-Done server others now now' app req none none g =
    elim (Bool-cases (is_valid_session app.session_store req.session_id)) [
      | inl known ↦ rw known (converse-Done server others now now' app req g)
      | inr unknown ↦ rw unknown (_, refl, g, tt)
    ]

-- On a sound store, Chat returns a status, or a response for the session of the request, and leaves
-- a sound store, whatever the request, the provider's answer, and the calls of other requests
-- between its own calls on the store.
pub chat-returns :
    (server : Server) (others : Others) (now now' : ℕ) (app : Application) (req : ChatRequest)
    → IsSound app.session_store
    → (r : Application × Result ChatResponse) × (chat server others now now' app req ≡ returns r)
      × IsSound (r.0).session_store
      × Belongs req r.1
unfolding chat
chat-returns server others now now' app req g = chat_checked-Done server others now now' _ req _ _ g

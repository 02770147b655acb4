-- ===== src/Handlers/Chat/Correct.antt =====
-- Chat keeps its promise, branch by branch.
use microchat_ai.Prelude.{
  ℕ, none, some, refl, returns, inl, inr, Bool-cases, length, Option, ◌≡◌, ◌++◌, ◌∷◌, [], true,
  bytes,
}
use microchat_ai.Handlers.{Server, Application, with_store, emit, request_size}
use microchat_ai.Handlers.Chat.{
  ChatRequest, ask, ask_stored, converse, chat_checked, ChatResponse, chat,
}
use microchat_ai.Store.{
  get_messages, SessionStore, AppendError, get_messages_as_llm_format, is_valid_session,
}
use microchat_ai.Store.History.{run, IsSound, append_message-IsSound}
use microchat_ai.Handlers.Chat.Alone.{
  Ends, Appended, message_of, alone, append_message-Appended, accept-Accepted,
}
use microchat_ai.Handlers.Chat.Contract.{Conversed, Accepted-Conversed, Ended}
use microchat_ai.Session.{user}
use microchat_ai.Handlers.Validate.{
  validate_session_id, validate_message, validate_session_id-code, validate_message-code,
}
use microchat_ai.Grpc.{Status, Result, ok, err}

module _ (server : Server) (now now' : ℕ) (app : Application) (req : ChatRequest) where
  abbrev count : ℕ
  count = length (get_messages app.session_store req.session_id)

  ask-Conversed :
      (app₁ : Application)
      → IsSound app₁.session_store
      → get_messages app₁.session_store req.session_id
        ≡ get_messages app.session_store req.session_id ++ message_of user req.message now ∷ []
      → Ends
          (Conversed server now now' app.session_store req)
          (ask server alone now' app₁ req count)
  unfolding ask run
  ask-Conversed app₁ g same =
      let provider = server.get_provider req.model in
      let result =
        provider.generate_response (get_messages_as_llm_format app₁.session_store req.session_id) in
      let (r, e, a) = accept-Accepted req now' server app₁ count provider.name result g in
      (
        r,
        e,
        Accepted-Conversed server now now' app.session_store req app₁.session_store result same refl
            r a,
      )

  ask_stored-Conversed :
      (r : SessionStore × Option AppendError)
      → IsSound r.0
      → Appended app.session_store req.session_id (message_of user req.message now) r
      → Ends
          (Conversed server now now' app.session_store req)
          (ask_stored server alone now' app req count r)
  unfolding ask_stored
  ask_stored-Conversed (s, some error) g kept = (_, refl, inl (refl, kept))
  ask_stored-Conversed (s, none) g same = ask-Conversed (with_store app s) g same

  converse-Conversed :
      IsSound app.session_store
      → Ends
          (Conversed server now now' app.session_store req)
          (converse server alone now now' app req)
  unfolding converse run
  converse-Conversed g =
      let s = app.session_store in
      let (r, e, h) = append_message-IsSound s now req.session_id user req.message g in
      let a = append_message-Appended s now req.session_id user req.message g r e in
      rw e (ask_stored-Conversed r h a)

  Ended-of-Conversed :
      validate_session_id server.parse_uuid req.session_id ≡ none
      → validate_message req.message ≡ none
      → is_valid_session app.session_store req.session_id ≡ true
      → (r : Application × Result ChatResponse) → Conversed server now now' app.session_store req r
      → Ended server now now' app.session_store req r
  Ended-of-Conversed a b c (app', ok response) h = (a, b, c, h)
  Ended-of-Conversed a b c (app', err status) h = inr h

  chat_checked-Ended :
      (id_error message_error : Option Status)
      → IsSound app.session_store
      → validate_session_id server.parse_uuid req.session_id ≡ id_error
      → validate_message req.message ≡ message_error
      → Ends
          (Ended server now now' app.session_store req)
          (chat_checked server alone now now' app req id_error message_error)
  unfolding chat_checked
  chat_checked-Ended (some status) message_error g a b = (
    _,
    refl,
    inl (inl (validate_session_id-code server.parse_uuid req.session_id status a), refl),
  )
  chat_checked-Ended none (some status) g a b =
      (_, refl, inl (inl (validate_message-code req.message status b), refl))
  chat_checked-Ended none none g a b =
      elim (Bool-cases (is_valid_session app.session_store req.session_id)) [
        | inl known ↦
            let (r, e, h) = converse-Conversed g in
            rw known (r, e, Ended-of-Conversed a b known r h)
        | inr unknown ↦ rw unknown (_, refl, inl (inr refl, refl))
      ]

-- On a sound store, while no other request touches it, Chat returns. If it responds, the id, the
-- message and the session were valid, the provider was asked with the history and the new message,
-- its answer was not too large, the history has grown by the message and the sanitised answer, and
-- the response holds that answer and the new number of messages (modulo 2^32). If it reports an
-- error, either the store is as before (InvalidArgument, NotFound), or the history of the session
-- is (ResourceExhausted), or the history has grown by the message, without an answer
-- (ResourceExhausted, Internal).
pub chat-Ended :
    (server : Server) (now now' : ℕ) (app : Application) (req : ChatRequest)
    → IsSound app.session_store
    → (r : Application × Result ChatResponse) × (chat server alone now now' app req ≡ returns r)
      × Ended server now now' app.session_store req r
unfolding chat
chat-Ended server now now' app req g =
    chat_checked-Ended server now now' (emit app (request_size (bytes "Chat") (length req.message)))
      req _ _ g refl refl

-- ===== src/Handlers/Chat/Contract.antt =====
-- What Chat promises when no other request touches the store in the meantime.
use mathlib.Core.List.{append_assoc}
use microchat_ai.Prelude.{
  ℕ, none, refl, inr, ◌≡◌, ◌⊎◌, ◌++◌, true, ◌∷◌, [], length, Bytes, map, ◌%◌, ◌^◌, ◌+◌, ◌∙◌, arith,
  length-append,
}
use microchat_ai.Handlers.{Application, Server}
use microchat_ai.Llm.{Generated, generated}
use microchat_ai.Handlers.Chat.{ChatRequest, ChatResponse, next_count}
use microchat_ai.Grpc.{
  Status, Result, resource_exhausted, invalid_argument, ok, internal, not_found, err,
}
use microchat_ai.Store.{
  llm_format, get_messages_as_llm_format, get_messages, SessionStore, is_valid_session,
}
use microchat_ai.Handlers.Validate.{validate_session_id, validate_message, validate_response}
use microchat_ai.Handlers.Chat.Alone.{message_of, Accepted}
use microchat_ai.Session.{user, assistant}
use microchat_ai.Handlers.Sanitize.{sanitize_for_terminal}

-- A response, and the application that it leaves.
pub record Success (server : Server) (now now' : ℕ) (before : SessionStore) (req : ChatRequest)
    (app' : Application) (response : ChatResponse) : Type 0 where
  pub text : Bytes
  pub asked :
      (server.get_provider req.model).generate_response (
        map llm_format (get_messages before req.session_id ++ message_of user req.message now ∷ []))
      ≡ generated text
  pub small : validate_response server.max_response_size_kb text ≡ none
  pub history :
      get_messages app'.session_store req.session_id
      ≡ get_messages before req.session_id
        ++ message_of user req.message now
          ∷ message_of assistant (sanitize_for_terminal text) now'
          ∷ []
  pub answered : response ≡ record {
    session_id = req.session_id;
    reply = sanitize_for_terminal text;
    message_count = length (get_messages app'.session_store req.session_id) % 2 ^ 32;
  }

-- The history of the session after an error: as it was if the message is not stored; otherwise the
-- user's message stays, without an answer.
abbrev pub Failure : ℕ → SessionStore → ChatRequest → Application → Status → Type 0
Failure now before req app' status =
    ((status.code ≡ resource_exhausted)
      × (get_messages app'.session_store req.session_id ≡ get_messages before req.session_id))
    ⊎ (((status.code ≡ resource_exhausted) ⊎ (status.code ≡ internal))
        × (get_messages app'.session_store req.session_id
            ≡ get_messages before req.session_id ++ message_of user req.message now ∷ []))

-- An error before the store is touched.
abbrev pub Refusal : SessionStore → Application → Status → Type 0
Refusal before app' status =
    ((status.code ≡ invalid_argument) ⊎ (status.code ≡ not_found)) × (app'.session_store ≡ before)

next_count_lem : (n : ℕ) → next_count n ≡ (n + 2) % 2 ^ 32
unfolding next_count
next_count_lem n = omega arith

module _ (server : Server) (now now' : ℕ) (before : SessionStore) (req : ChatRequest) where
  abbrev pub Conversed : Application × Result ChatResponse → Type 0
  Conversed (app', ok response) = Success server now now' before req app' response
  Conversed (app', err status) = Failure now before req app' status

  abbrev pub Ended : Application × Result ChatResponse → Type 0
  Ended (app', ok response) =
      (validate_session_id server.parse_uuid req.session_id ≡ none)
      × (validate_message req.message ≡ none)
      × (is_valid_session before req.session_id ≡ true)
      × Success server now now' before req app' response
  Ended (app', err status) = Refusal before app' status ⊎ Failure now before req app' status

  pub Accepted-Conversed :
      (s : SessionStore) (result : Generated)
      → get_messages s req.session_id
        ≡ get_messages before req.session_id ++ message_of user req.message now ∷ []
      → result
        ≡ (server.get_provider req.model).generate_response
            (get_messages_as_llm_format s req.session_id)
      → (r : Application × Result ChatResponse)
      → Accepted req now' server.max_response_size_kb
          (get_messages s req.session_id)
          (length (get_messages before req.session_id))
          result
          r
      → Conversed r
  unfolding get_messages_as_llm_format next_count
  Accepted-Conversed s result same e (app', ok response) (text, from, small, (equal, history)) =
      record {
        text = text;
        asked = cc (same, e, from);
        small = small;
        history = both;
        answered =
            equal
            ∙ rw
                (
                  both,
                  length-append (get_messages before req.session_id) (
                      message_of user req.message now
                      ∷ message_of assistant (sanitize_for_terminal text) now'
                      ∷ []),
                  next_count_lem (length (get_messages before req.session_id)),
                )
                refl;
      }
    where
      both :
          get_messages app'.session_store req.session_id
          ≡ get_messages before req.session_id
            ++ message_of user req.message now
              ∷ message_of assistant (sanitize_for_terminal text) now'
              ∷ []
      both = history ∙ rw same (append_assoc (get_messages before req.session_id) _ _)
  Accepted-Conversed s result same e (app', err status) (code, history) = inr (code, history ∙ same)

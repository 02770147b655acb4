-- ===== src/Handlers/Chat/Alone.antt =====
-- Chat when no other request touches the store in the meantime.
use mathlib.Core.List.{append-nil}
use microchat_ai.Prelude.{
  ℕ, none, some, refl, returns, inl, inr, [], Bytes, Option, ◌≡◌, ◌++◌, ◌∷◌, arith, List, Outcome,
  Option-cases, ◌⊎◌, bytes,
}
use microchat_ai.Handlers.Chat.{
  Others, ChatRequest, answer, store_reply, accept, ChatResponse, accept_checked, next_count,
}
use microchat_ai.Session.{Role, Message, assistant}
use microchat_ai.Store.{SessionStore, AppendError, get_messages, append_message}
use microchat_ai.Store.History.{IsSound, run, append_message-IsSound}
use microchat_ai.Handlers.{Application, Server, emit, grpc_error}
use microchat_ai.Llm.{Generated, generated, failed}
use microchat_ai.Store.Append.Effect.{get_messages-append_message, append_message-error}
use microchat_ai.Grpc.{Result, Status, ok, resource_exhausted, err, internal}
use microchat_ai.Handlers.Validate.{validate_response}
use microchat_ai.Handlers.Sanitize.{sanitize_for_terminal}

abbrev pub alone : Others
alone = record { before_count = []; before_message = []; before_context = []; before_reply = [] }

abbrev pub message_of : Role → Bytes → ℕ → Message
message_of role text now = record { role = role; text = text; timestamp = now }

-- AppendMessage adds the message to its session, or reports an error and adds nothing to it.
abbrev pub Appended : SessionStore → Bytes → Message → SessionStore × Option AppendError → Type 0
Appended s id msg (s', none) = get_messages s' id ≡ get_messages s id ++ msg ∷ []
Appended s id msg (s', some error) = get_messages s' id ≡ get_messages s id

pub append_message-Appended :
    (s : SessionStore) (now : ℕ) (id : Bytes) (role : Role) (text : Bytes)
    → IsSound s
    → (r : SessionStore × Option AppendError) → append_message s now id role text ≡ returns r
    → Appended s id (message_of role text now) r
append_message-Appended s now id role text g (s', none) e = ground (
  arith,
  get_messages-append_message s now id role text g.valid g.positive _ e id,
  append_message-error s now id role text g.valid g.positive _ e,
)
append_message-Appended s now id role text g (s', some error) e = ground (
  arith,
  get_messages-append_message s now id role text g.valid g.positive _ e id,
  append_message-error s now id role text g.valid g.positive _ e,
  append-nil (get_messages s id),
)

-- A call that returns a result of which `P` holds.
abbrev pub Ends {ℓ} :
    (Application × Result ChatResponse → Type ℓ)
    → Outcome (Application × Result ChatResponse)
    → Type ℓ
Ends P m = (r : Application × Result ChatResponse) × (m ≡ returns r) × P r

module _ (req : ChatRequest) (now : ℕ) where
  abbrev pub Stored : List Message → ℕ → Bytes → Application × Result ChatResponse → Type 0
  Stored h current reply (app, ok response) =
      (response
        ≡ record { session_id = req.session_id; reply = reply; message_count = next_count current })
      × (get_messages app.session_store req.session_id ≡ h ++ message_of assistant reply now ∷ [])
  Stored h current reply (app, err status) =
      (status.code ≡ resource_exhausted) × (get_messages app.session_store req.session_id ≡ h)

  answer-Stored :
      (app : Application) (current : ℕ) (reply : Bytes) (r : SessionStore × Option AppendError)
      → Appended app.session_store req.session_id (message_of assistant reply now) r
      → Stored
          (get_messages app.session_store req.session_id)
          current
          reply
          (answer app req current reply r)
  unfolding answer
  answer-Stored app current reply (s, none) a = (refl, a)
  answer-Stored app current reply (s, some error) a = (refl, a)

  store_reply-Stored :
      (app : Application) (current : ℕ) (reply : Bytes)
      → IsSound app.session_store
      → Ends
          (Stored (get_messages app.session_store req.session_id) current reply)
          (store_reply alone now app req current reply)
  unfolding store_reply run
  store_reply-Stored app current reply g =
      let s = app.session_store in
      let (r, e, _) = append_message-IsSound s now req.session_id assistant reply g in
      (
        answer app req current reply r,
        rw e,
        answer-Stored app current reply r
            (append_message-Appended s now req.session_id assistant reply g r e),
      )

  -- What accept ends with: the reply that is stored is the sanitised answer of the provider.
  abbrev pub Accepted :
      Bytes → List Message → ℕ → Generated → Application × Result ChatResponse → Type 0
  Accepted limit h current result (app, ok response) =
      (text : Bytes) × (result ≡ generated text)
      × (validate_response limit text ≡ none)
      × Stored h current (sanitize_for_terminal text) (app, ok response)
  Accepted limit h current result (app, err status) =
      ((status.code ≡ resource_exhausted) ⊎ (status.code ≡ internal))
      × (get_messages app.session_store req.session_id ≡ h)

  Stored-Accepted :
      (limit : Bytes) (h : List Message) (current : ℕ) (text : Bytes)
      (r : Application × Result ChatResponse)
      → validate_response limit text ≡ none
      → Stored h current (sanitize_for_terminal text) r
      → Accepted limit h current (generated text) r
  Stored-Accepted limit h current text (app, ok response) small a = (text, refl, small, a)
  Stored-Accepted limit h current text (app, err status) small a = (inl a.0, a.1)

  validate_response-code :
      (limit text : Bytes) (status : Status)
      → validate_response limit text ≡ some status
      → status.code ≡ resource_exhausted
  unfolding validate_response
  validate_response-code limit text status e = ground arith

  abbrev refused : Application → Status → Application × Result ChatResponse
  refused app status =
      (emit app (grpc_error (bytes "Chat") (bytes "ResourceExhausted")), err status)

  pub accept-Accepted :
      (server : Server) (app : Application) (current : ℕ) (name : Bytes) (result : Generated)
      → IsSound app.session_store
      → Ends
          (Accepted server.max_response_size_kb
            (get_messages app.session_store req.session_id)
            current
            result)
          (accept server alone now app req current name result)
  unfolding accept accept_checked
  accept-Accepted server app current name (failed error) g = (_, refl, (inr refl, refl))
  accept-Accepted server app current name (generated text) g =
      elim (Option-cases (validate_response server.max_response_size_kb text)) [
        | inl small ↦
            let (r, e, a) = store_reply-Stored app current (sanitize_for_terminal text) g in
            (r, rw small e, Stored-Accepted _ _ current text r small a)
        | inr (status, large) ↦ rw large (
          refused app status,
          refl,
          (inl (validate_response-code server.max_response_size_kb text status large), refl),
        )
      ]

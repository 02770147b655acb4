-- ===== src/Llm/Echo.antt =====
-- What the echo provider answers, and which provider is chosen.
use microchat_ai.Prelude.{
  ℕ, some, zero, suc, List, Bytes, ℤ, ◌++◌, false, bytes, ◌≡◌, ◌∷◌, pos, [], negsuc, refl, arith,
}
use microchat_ai.Llm.{
  echo_response, new_provider, or_echo, Provider, generated, last_user_message, echo_text,
}
use microchat_ai.Store.{LlmMessage}

abbrev by_user : Bytes → LlmMessage
by_user text = record { role = bytes "user"; text = text }

last_user_message-append :
    (messages : List LlmMessage) (text : Bytes)
    → last_user_message (messages ++ by_user text ∷ []) ≡ some text
unfolding last_user_message
last_user_message-append [] text = ground arith
last_user_message-append (msg ∷ more) text = rw (last_user_message-append more text) refl

-- Where the last message is the user's and not empty, the echo provider answers with its text.
echo_response-user :
    (messages : List LlmMessage) (c : ℕ) (text : Bytes)
    → echo_response (messages ++ by_user (c ∷ text) ∷ []) ≡ generated (bytes "Echo: " ++ c ∷ text)
unfolding echo_response echo_text
echo_response-user [] c text = rw (last_user_message-append [] (c ∷ text), echo_text) refl
echo_response-user (msg ∷ more) c text =
    rw (last_user_message-append (msg ∷ more) (c ∷ text), echo_text) refl

-- Outside development the echo provider is chosen only where Gemini cannot be set up.
new_provider-production :
    (provider : Provider) (model : ℤ) → new_provider (some provider) false model ≡ provider
unfolding new_provider or_echo
new_provider-production provider (pos zero) = refl
new_provider-production provider (pos (suc n)) = refl
new_provider-production provider (negsuc n) = refl

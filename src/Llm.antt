-- ===== src/Llm.antt =====
-- cmd/server/llm: the interface of a provider, the echo provider, and the choice of a provider.
pub mod Gemini
pub mod Mock
pub mod Echo
use microchat_ai.Prelude.{
  none, some, zero, suc, ℕ, Bytes, List, Option, bytes, ℤ, Bool, if◌then◌else◌, ◌∷◌, ite, [], ◌++◌,
  pos, Bytes_discrete, true, false, decimal_ℤ,
}
use microchat_ai.Store.{LlmMessage}

-- What a provider answers: a text, or an error.
pub data Generated : Type 0 where
  generated failed : Bytes → Generated

-- llm.Provider
pub record Provider : Type 0 where
  pub name : Bytes
  pub generate_response : List LlmMessage → Generated

-- Role == "user"
abbrev pub is_user : LlmMessage → Bool
is_user msg = ite (Bytes_discrete msg.role (bytes "user")) true false

abbrev or_this : LlmMessage → Option Bytes → Option Bytes
or_this msg (some text) = some text
or_this msg none = if is_user msg then some msg.text else none

-- The loop over the messages, from the last to the first: the text of the first user message that
-- it meets.
unfoldable pub last_user_message : List LlmMessage → Option Bytes
last_user_message [] = none
last_user_message (msg ∷ later) = or_this msg (last_user_message later)

-- lastUserMessage is empty where there is no user message.
unfoldable pub echo_text : Option Bytes → Generated
echo_text (some (c ∷ s)) = generated (bytes "Echo: " ++ c ∷ s)
echo_text _ = generated (bytes "Echo: No user message found")

unfoldable pub echo_response : List LlmMessage → Generated
unfolding last_user_message echo_text
echo_response [] = generated (bytes "Echo: No message to echo")
echo_response (msg ∷ more) = echo_text (last_user_message (msg ∷ more))

abbrev pub echo_provider : Provider
unfolding echo_response
echo_provider = record { name = bytes "Echo"; generate_response = echo_response }

-- The error of NewGeminiProvider, or the provider. `gemini` stands for a client that is set up.
unfoldable pub or_echo : Option Provider → Provider
unfolding echo_provider
or_echo none = echo_provider
or_echo (some provider) = provider

-- NewProvider. 0 is GEMINI_2_5_FLASH_LITE and 1 is ECHO; `is_dev` says whether APP_ENV is
-- "development".
unfoldable pub new_provider : Option Provider → Bool → ℤ → Provider
unfolding or_echo
new_provider gemini is_dev (pos zero) = or_echo gemini
new_provider gemini is_dev model = if is_dev then echo_provider else or_echo gemini

unfoldable pub get_provider_name : ℤ → Bytes
get_provider_name (pos zero) = bytes "Gemini-2.5-Flash-Lite"
get_provider_name (pos (suc zero)) = bytes "Echo (Dev/Test)"
get_provider_name model = bytes "Unknown Model " ++ decimal_ℤ model

-- getProvider of cmd/server/main.go: the factory of the application, if there is one.
unfoldable pub get_provider : Option (ℤ → Provider) → Option Provider → Bool → ℤ → Provider
unfolding new_provider
get_provider none gemini is_dev model = new_provider gemini is_dev model
get_provider (some factory) gemini is_dev model = factory model

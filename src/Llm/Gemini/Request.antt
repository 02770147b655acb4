-- ===== src/Llm/Gemini/Request.antt =====
-- cmd/server/llm/gemini.go: the provider's client, and the request that it sends.
use microchat_ai.Prelude.{ℕ, Bytes, bytes, List, [], ◌∷◌, ◌++◌, OrError, value, error}
use microchat_ai.Store.{LlmMessage}
use microchat_ai.Llm.Gemini.{max_output_tokens, parts}

-- NewGeminiProvider, from the value of GEMINI_API_KEY: `new_client` is genai.NewClient, over the
-- type of its clients.
module _ {C : Type 0} (new_client : Bytes → OrError C) where
  abbrev checked : OrError C → OrError C
  checked (value client) = value client
  checked (error e) = error (bytes "failed to create Gemini client: " ++ e)

  unfoldable pub new_gemini_provider : Bytes → OrError C
  new_gemini_provider [] = error (bytes "GEMINI_API_KEY environment variable not set")
  new_gemini_provider (c ∷ api_key) = checked (new_client (c ∷ api_key))

pub data HarmCategory : Type 0 where
  harassment hate_speech sexually_explicit dangerous_content : HarmCategory

-- The one threshold that is used.
pub data Threshold : Type 0 where
  block_medium_and_above : Threshold

pub record SafetySetting : Type 0 where
  pub category : HarmCategory
  pub threshold : Threshold

abbrev pub blocks : HarmCategory → SafetySetting
blocks category = record { category = category; threshold = block_medium_and_above }

abbrev pub safety_settings : List SafetySetting
safety_settings =
    blocks harassment
    ∷ blocks hate_speech
    ∷ blocks sexually_explicit
    ∷ blocks dangerous_content
    ∷ []

-- A call of GenerateContent; the parts are those of its one content.
pub record GenerateContent : Type 0 where
  pub model : Bytes
  pub content : List Bytes
  pub safety : List SafetySetting
  pub max_output_tokens : ℕ

abbrev or_flash : Bytes → Bytes
or_flash [] = bytes "gemini-2.5-flash-lite"
or_flash (c ∷ s) = c ∷ s

-- From the values of GEMINI_MODEL and GEMINI_MAX_OUTPUT_TOKENS.
unfoldable pub request_of : Bytes → Bytes → List LlmMessage → GenerateContent
unfolding parts max_output_tokens
request_of gemini_model max_tokens messages = record {
  model = or_flash gemini_model;
  content = parts messages;
  safety = safety_settings;
  max_output_tokens = max_output_tokens max_tokens;
}

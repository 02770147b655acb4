-- ===== src/Llm/Gemini.antt =====
-- cmd/server/llm/gemini.go: the settings of a request, and the retry loop.
pub mod Retry
pub mod Request
use microchat_ai.Prelude.{
  ◌>>=◌, none, some, zero, suc, ℕ, Bytes, Bool, Option, List, bytes, if◌then◌else◌, Outcome, ◌+◌, ℤ,
  ◌∷◌, returns, pos, atoi, ◌++◌, [], get_elem?, ltb, panics, ◌&&◌, leb, negsuc,
}
use microchat_ai.Grpc.{
  Result, deadline_exceeded, Status, fails, err, canceled, unavailable, ok, invalid_argument,
}
use microchat_ai.Store.{LlmMessage}

-- An error of the client, which is a gRPC status or not.
pub data CallError : Type 0 where
  plain : Bytes → CallError
  grpc : Status → CallError

pub data Called : Type 0 where
  answered : Bytes → Called
  call_failed : CallError → Called

-- What one attempt meets: whether the request is cancelled before it, what the client answers,
-- whether the 30 seconds are over by then, and whether the request is cancelled by then.
pub record Attempt : Type 0 where
  pub cancelled : Bool
  pub called : Called
  pub timed_out : Bool
  pub cancelled_after : Bool

-- What the loop has done: its result, the calls it made, and the seconds it slept.
pub record Run : Type 0 where
  pub result : Result Bytes
  pub calls : ℕ
  pub waited : ℕ

-- MaxOutputTokens, from the value of GEMINI_MAX_OUTPUT_TOKENS.
accepted_tokens : Option ℤ → ℕ
accepted_tokens (some (pos n)) = if ltb 0 n && leb n 8192 then n else 2048
accepted_tokens (some (negsuc n)) = 2048
accepted_tokens none = 2048

unfoldable pub max_output_tokens : Bytes → ℕ
unfolding accepted_tokens
max_output_tokens [] = 2048
max_output_tokens (c ∷ s) = accepted_tokens (atoi (c ∷ s))

-- The parts of the request, one for each message.
unfoldable pub parts : List LlmMessage → List Bytes
parts [] = []
parts (msg ∷ more) = (msg.role ++ bytes ": " ++ msg.text) ∷ parts more

abbrev pub backoff_durations : List ℕ
backoff_durations = 1 ∷ 2 ∷ 4 ∷ []

abbrev pub request_cancelled : Result Bytes
request_cancelled = fails canceled (bytes "request cancelled")

-- The status that the loop ends with when all attempts have failed.
unfoldable pub give_up : CallError → Result Bytes
give_up (grpc status) = err status
give_up (plain error) = fails unavailable (bytes "Gemini API failed after 3 attempts: " ++ error)

abbrev pub api_timeout : CallError
api_timeout = grpc (record { code = deadline_exceeded; message = bytes "Gemini API timeout" })

abbrev pub empty_response : CallError
empty_response = plain (bytes "Gemini returned empty response")

-- One attempt, after the sleep: it ends the loop with a result, or leaves an error to the next.
pub data Verdict : Type 0 where
  ends : Result Bytes → Verdict
  retries : CallError → Verdict

unfoldable pub judge : Attempt → Called → Verdict
judge attempt (call_failed error) =
    if attempt.timed_out
    then retries api_timeout
    else if attempt.cancelled_after
    then ends request_cancelled
    else retries error
judge attempt (answered []) = retries empty_response
judge attempt (answered (c ∷ s)) = ends (ok (c ∷ s))

-- backoffDurations[attempt-1]; an index out of range panics.
abbrev sleep : Option ℕ → Outcome ℕ
sleep none = panics
sleep (some seconds) = returns seconds

-- The sleep before an attempt that is not the first.
unfoldable pub backoff : ℕ → Outcome ℕ
backoff zero = returns 0
backoff (suc n) = sleep (get_elem? backoff_durations n)

-- What the rest of the loop has done, and one call after a sleep.
abbrev pub one_more : ℕ → Run → Run
one_more seconds run = record {
  result = run.result;
  calls = suc run.calls;
  waited = seconds + run.waited;
}

-- What follows an attempt, after a sleep of `seconds`.
unfoldable pub continue : ℕ → (CallError → Outcome Run) → Verdict → Outcome Run
continue seconds next (ends result) =
    returns (record { result = result; calls = 1; waited = seconds })
continue seconds next (retries error) = do run ← next error; returns (one_more seconds run)

-- The loop, with `left` attempts to go; `last` is the error of the last one.
unfoldable pub retry : (ℕ → Attempt) → ℕ → ℕ → CallError → Outcome Run
unfolding judge backoff give_up continue
retry attempts zero n last = returns (record { result = give_up last; calls = 0; waited = 0 })
retry attempts (suc left) n last =
    if (attempts n).cancelled
    then returns (record { result = request_cancelled; calls = 0; waited = 0 })
    else (do
      seconds ← backoff n
      continue seconds (retry attempts left (suc n)) (judge (attempts n) (attempts n).called))

-- lastErr is nil before the first attempt, and is read after the last one only.
abbrev pub no_error : CallError
no_error = plain (bytes "<nil>")

unfoldable pub gemini_response : (ℕ → Attempt) → List LlmMessage → Outcome Run
unfolding retry parts
gemini_response attempts [] = returns (record {
  result = fails invalid_argument (bytes "no messages to process");
  calls = 0;
  waited = 0;
})
gemini_response attempts (msg ∷ more) = retry attempts 3 0 no_error

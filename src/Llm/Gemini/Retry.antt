-- ===== src/Llm/Gemini/Retry.antt =====
-- The retry loop ends, in bounded time, and answers with what the client answered.
use microchat_ai.Grpc.{ok}
use microchat_ai.Prelude.{
  ℕ, zero, suc, refl, returns, ◌+◌, ◌<◌, Bytes, ◌≤◌, ◌≡◌, ◌≢◌, arith, false, Bool-cases, length,
  inl, ◌∙◌, inr, ◌∷◌, ap, List, [],
}
use microchat_ai.Llm.Gemini.{
  backoff, Attempt, give_up, judge, retry, Run, CallError, Called, plain, ends, answered, grpc,
  continue, Verdict, call_failed, retries, no_error, gemini_response, one_more,
}
use microchat_ai.Store.{LlmMessage}

-- The seconds that are slept before the attempts below `n`.
slept : ℕ → ℕ
slept zero = 0
slept (suc n) = slept n + n

slept-le : (n : ℕ) → n ≤ 3 → slept n ≤ 3
unfolding slept
slept-le zero h = omega arith
slept-le (suc zero) h = omega arith
slept-le (suc (suc zero)) h = omega arith
slept-le (suc (suc (suc zero))) h = omega arith
slept-le (suc (suc (suc (suc n)))) h = absurd (omega arith)

backoff_lem : (n : ℕ) → n < 3 → backoff n ≡ returns n
unfolding backoff
backoff_lem zero h = refl
backoff_lem (suc zero) h = refl
backoff_lem (suc (suc zero)) h = refl
backoff_lem (suc (suc (suc n))) h = absurd (omega arith)

-- Some attempt from `n` on, with `left` to go, was not cancelled and got this text.
abbrev pub Answered : (ℕ → Attempt) → ℕ → ℕ → Bytes → Type 0
Answered attempts left n text =
    (k : ℕ) × (n ≤ k)
    × (k < n + left)
    × ((attempts k).cancelled ≡ false)
    × ((attempts k).called ≡ answered text)
    × (1 ≤ length text)

record IsGood (attempts : ℕ → Attempt) (left n : ℕ) (run : Run) : Type 0 where
  few : run.calls ≤ left
  short : run.waited + slept n ≤ 3
  sound : (text : Bytes) → run.result ≡ ok text → Answered attempts left n text

give_up-refused : (last : CallError) (text : Bytes) → give_up last ≢ ok text
unfolding give_up
give_up-refused (plain e) text h = cc
give_up-refused (grpc s) text h = cc

judge-ok :
    (attempt : Attempt) (called : Called) (text : Bytes)
    → judge attempt called ≡ ends (ok text)
    → (called ≡ answered text) × (1 ≤ length text)
unfolding judge
judge-ok attempt (call_failed e) text h = ground arith
judge-ok attempt (answered []) text h = ground arith
judge-ok attempt (answered (c ∷ s)) text h = ground arith

module _ (attempts : ℕ → Attempt) (left n : ℕ) (h : n + suc left ≤ 3)
    (going : (attempts n).cancelled ≡ false) where
  -- The step of the loop, given what the rest of it does.
  continue-IsGood :
      (verdict : Verdict)
      → judge (attempts n) (attempts n).called ≡ verdict
      → ((last : CallError)
          → (run : Run) × (retry attempts left (suc n) last ≡ returns run)
            × IsGood attempts left (suc n) run)
      → (run : Run) × (continue n (retry attempts left (suc n)) verdict ≡ returns run)
        × IsGood attempts (suc left) n run
  unfolding continue slept
  continue-IsGood (ends result) e rest = (
    _,
    refl,
    record {
      few = omega arith;
      short = omega (arith, slept-le (suc n));
      sound = λ text q.
          let (a, b) = judge-ok (attempts n) (attempts n).called text (e ∙ ap ends q) in
          (n, omega arith, omega arith, going, a, b);
    },
  )
  continue-IsGood (retries error) e rest =
      let (run, q, g) = rest error in
      (
        one_more n run,
        rw q refl,
        record {
          few = omega (arith, g.few);
          short = omega (arith, g.short);
          sound = λ text r.
              let (k, a, b, c, d, f) = g.sound text r in (k, omega arith, omega arith, c, d, f);
        },
      )

retry-IsGood :
    (attempts : ℕ → Attempt) (left n : ℕ) (last : CallError)
    → n + left ≤ 3
    → (run : Run) × (retry attempts left n last ≡ returns run) × IsGood attempts left n run
unfolding retry
retry-IsGood attempts zero n last h = (
  _,
  refl,
  record {
    few = omega arith;
    short = omega (arith, slept-le n (omega arith));
    sound = λ text e. absurd (give_up-refused last text e);
  },
)
retry-IsGood attempts (suc left) n last h = elim (Bool-cases (attempts n).cancelled) [
  | inl stopped ↦ rw stopped (
    _,
    refl,
    record {
      few = omega arith;
      short = omega (arith, slept-le n (omega arith));
      sound = λ text e. cc;
    },
  )
  | inr going ↦
      rw (going, backoff_lem n (omega arith))
        (continue-IsGood attempts left n h going (judge (attempts n) (attempts n).called) refl
          (λ error. retry-IsGood attempts left (suc n) error (omega arith)))
]

-- GenerateResponse returns: no index is out of range, the client is called at most three times, and
-- the loop sleeps at most three seconds.
pub gemini_response-bounded :
    (attempts : ℕ → Attempt) (messages : List LlmMessage)
    → (run : Run) × (gemini_response attempts messages ≡ returns run)
      × (run.calls ≤ 3)
      × (run.waited ≤ 3)
unfolding gemini_response
gemini_response-bounded attempts [] = (_, refl, omega arith, omega arith)
gemini_response-bounded attempts (msg ∷ more) =
    let (run, e, g) = retry-IsGood attempts 3 0 no_error (omega arith) in
    (run, e, g.few, omega (arith, g.short))

-- An answer is a text that is not empty, and that the client gave to one of the three attempts,
-- before which the request was not cancelled.
pub gemini_response-Answered :
    (attempts : ℕ → Attempt) (messages : List LlmMessage) (run : Run) (text : Bytes)
    → gemini_response attempts messages ≡ returns run
    → run.result ≡ ok text
    → Answered attempts 3 0 text
unfolding gemini_response
gemini_response-Answered attempts [] run text e r = cc
gemini_response-Answered attempts (msg ∷ more) run text e r =
    let (run', e', g) = retry-IsGood attempts 3 0 no_error (omega arith) in
    g.sound text (cc (e, e', r))

-- ===== src/Tests/Spending.antt =====
-- Runs of the daily limit.
use microchat_ai.GoMap.{get, put}
use microchat_ai.Prelude.{
  ℕ_discrete, Bytes_discrete, ◌≡◌, ◌<◌, refl, arith, Bytes, bytes, [], ◌∷◌, pos, true,
}
use microchat_ai.Spending.{SpendingTracker, calls_on, can_make_call, record_call}
use microchat_ai.Spending.Limit.{serve, calls_on-serve, try_call}
use microchat_ai.Spending.Race.{
  State, calls_on-bounded, next, Reach, here, calls_on-overrun, checks,
}

abbrev pub day : Bytes
day = bytes "2026-01-02"

abbrev pub key : Bytes
key = bytes "k"

-- One of two calls is made.
abbrev pub half_spent : SpendingTracker
half_spent = record { usage = (key, record { date = day; calls = 1 }) ∷ []; limit = pos 2 }

spent : calls_on half_spent day key ≡ 1
unfolding get put Bytes_discrete ℕ_discrete record_call can_make_call serve try_call
spent = refl

calls_on-serve_example : calls_on (serve half_spent day (key ∷ key ∷ bytes "l" ∷ [])) day key ≡ 2
unfolding get put Bytes_discrete ℕ_discrete record_call can_make_call serve try_call
calls_on-serve_example =
    calls_on-serve (key ∷ key ∷ bytes "l" ∷ []) half_spent day key (omega arith)
      (omega (arith, spent))

-- One check has passed.
abbrev checked : State
checked = record { tracker = half_spent; in_flight = 1 }

can_start : can_make_call half_spent day key ≡ true
unfolding get put Bytes_discrete ℕ_discrete record_call can_make_call serve try_call
can_start = refl

calls_on-bounded_example : calls_on checked.tracker day key < 4
calls_on-bounded_example =
    calls_on-bounded 2 day key half_spent checked (omega arith) (omega (arith, spent))
      (next here (checks can_start (omega arith) refl))

calls_on-overrun_example :
    (b : State) × Reach 2 day key (record { tracker = half_spent; in_flight = 0 }) b
    × (calls_on b.tracker day key ≡ 3)
unfolding get put Bytes_discrete ℕ_discrete record_call can_make_call serve try_call
calls_on-overrun_example = calls_on-overrun 2 day key half_spent (omega arith) (omega arith) refl

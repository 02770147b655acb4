-- ===== src/Spending.antt =====
-- cmd/server/main.go: SpendingTracker, the daily count of calls of each API key. Each method runs
-- under the tracker's lock; the date that it reads from the clock is an argument, `today`.
pub mod Limit
pub mod Race
use microchat_ai.Prelude.{
  ℕ, suc, ◌≡◌, refl, Bool, true, false, Option, none, some, arith, ite, ℤ, pos, ltb_ℤ,
  if◌then◌else◌, [], Bytes, Bytes_discrete,
}
use microchat_ai.GoMap.{GoMap, get, put, get-put}

-- `date` is YYYY-MM-DD.
pub record KeyUsage : Type 0 where
  pub date : Bytes
  pub calls : ℕ

pub record SpendingTracker : Type 0 where
  pub usage : GoMap KeyUsage
  pub limit : ℤ

unfoldable pub new_spending_tracker : ℤ → SpendingTracker
new_spending_tracker daily_limit = record { usage = []; limit = daily_limit }

abbrev check_usage : ℤ → Bytes → Option KeyUsage → Bool
check_usage limit today none = true
check_usage limit today (some usage) =
    ite (Bytes_discrete usage.date today) (ltb_ℤ (pos usage.calls) limit) true

unfoldable pub can_make_call : SpendingTracker → Bytes → Bytes → Bool
can_make_call st today api_key = check_usage st.limit today (get st.usage api_key)

abbrev pub next_usage : Bytes → Option KeyUsage → KeyUsage
next_usage today none = record { date = today; calls = 1 }
next_usage today (some usage) =
    ite (Bytes_discrete usage.date today) (record usage { calls = suc usage.calls })
      (record { date = today; calls = 1 })

unfoldable pub record_call : SpendingTracker → Bytes → Bytes → SpendingTracker
record_call st today api_key = record st {
  usage = put st.usage api_key (next_usage today (get st.usage api_key));
}

abbrev calls_of : Bytes → Option KeyUsage → ℕ
calls_of day none = 0
calls_of day (some usage) = ite (Bytes_discrete usage.date day) usage.calls 0

-- How many calls of a key the tracker counts for a day.
abbrev pub calls_on : SpendingTracker → Bytes → Bytes → ℕ
calls_on st day api_key = calls_of day (get st.usage api_key)

-- The tracker has an entry of the key for the day.
abbrev on_day : Bytes → Option KeyUsage → Bool
on_day day none = false
on_day day (some usage) = ite (Bytes_discrete usage.date day) true false

-- ===== src/Spending/Limit.antt =====
-- The daily limit, for requests that check and record without another between.
use Prim.Native.Nat.{min, ℕ}
use microchat_ai.Prelude.{
  suc, ◌≡◌, arith, ite, Bytes, Bytes_discrete, Bool, List, pos, ◌<ℤ◌, ◌∷◌, ℕ, ltb_ℤ, ◌+◌, pos_part,
  ◌≤ℤ◌, if◌then◌else◌, [], true, false,
}
use microchat_ai.GoMap.{get-put, get}
use microchat_ai.Spending.{SpendingTracker, record_call, calls_on, next_usage, can_make_call}

-- A recorded call counts once, for its key and its day; the counts of the other keys stay.
pub calls_on-record_call :
    (st : SpendingTracker) (today key other : Bytes)
    → calls_on (record_call st today key) today other
      ≡ ite (Bytes_discrete key other) (suc (calls_on st today other)) (calls_on st today other)
unfolding record_call
calls_on-record_call st today key other =
    ground (arith, get-put st.usage key other (next_usage today (get st.usage key)))

-- With a positive limit the check compares the day's count with it; a key without an entry, or
-- with an entry of another day, counts 0.
pub can_make_call_iff :
    (st : SpendingTracker) (today key : Bytes)
    → pos 0 <ℤ st.limit
    → can_make_call st today key ≡ ltb_ℤ (pos (calls_on st today key)) st.limit
unfolding can_make_call
can_make_call_iff st today key h = ground arith

-- What AuthInterceptor does with the tracker, when no other request comes between.
unfoldable pub try_call : SpendingTracker → Bytes → Bytes → SpendingTracker × Bool
try_call st today key =
    if can_make_call st today key then (record_call st today key, true) else (st, false)

-- The requests of a day, one after the other.
unfoldable pub serve : SpendingTracker → Bytes → List Bytes → SpendingTracker
serve st today [] = st
serve st today (key ∷ keys) = serve (try_call st today key).0 today keys

abbrev pub count : Bytes → List Bytes → ℕ
count key [] = 0
count key (k ∷ keys) = ite (Bytes_discrete k key) 1 0 + count key keys

limit-try_call :
    (st : SpendingTracker) (today key : Bytes) → (try_call st today key).0.limit ≡ st.limit
unfolding try_call record_call
limit-try_call st today key = ground arith

calls_on-try_call :
    (st : SpendingTracker) (today key other : Bytes)
    → pos 0 <ℤ st.limit
    → pos (calls_on st today other) ≤ℤ st.limit
    → calls_on (try_call st today key).0 today other
      ≡ ite
          (Bytes_discrete key other)
          (min (pos_part st.limit) (suc (calls_on st today other)))
          (calls_on st today other)
unfolding try_call
calls_on-try_call st today key other h k =
    ground (arith, can_make_call_iff st today key h, calls_on-record_call st today key other)

-- With a positive limit, from any tracker whose count for a key is within it, the requests of one
-- day, of all keys in any order, none between the check and the record of another, leave the key's
-- count at the old count and the number of its requests, cut at the limit.
pub calls_on-serve :
    (keys : List Bytes) (st : SpendingTracker) (today key : Bytes)
    → pos 0 <ℤ st.limit
    → pos (calls_on st today key) ≤ℤ st.limit
    → calls_on (serve st today keys) today key
      ≡ min (pos_part st.limit) (calls_on st today key + count key keys)
unfolding serve
calls_on-serve [] st today key h k = ground arith
calls_on-serve (j ∷ keys) st today key h k = ground (
  arith,
  calls_on-serve keys (try_call st today j).0 today key (rw (limit-try_call st today j) h),
  limit-try_call st today j,
  calls_on-try_call st today j key h k,
)

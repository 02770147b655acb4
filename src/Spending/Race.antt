-- ===== src/Spending/Race.antt =====
-- AuthInterceptor checks the limit and records the call under two acquisitions of the lock, so
-- other requests run between. One key and one day; each worker serves one request at a time.
use microchat_ai.Prelude.{
  ℕ, suc, ◌+◌, ◌≤◌, ◌<◌, ◌≡◌, refl, true, arith, ℤ, pos, pos_part, ◌<ℤ◌, Bytes, subst, sym,
}
use microchat_ai.Spending.{SpendingTracker, can_make_call, record_call, calls_on}
use microchat_ai.Spending.Limit.{calls_on-record_call, can_make_call_iff}

-- The tracker, and how many requests have passed the check and have not yet recorded.
pub record State : Type 0 where
  pub tracker : SpendingTracker
  pub in_flight : ℕ

module _ (workers : ℕ) (today key : Bytes) where
  -- `checks`: an idle worker passes CanMakeCall. `records`: a worker in flight runs RecordCall.
  pub data Step (a b : State) : Type 0 where
    checks :
        can_make_call a.tracker today key ≡ true
        → a.in_flight < workers
        → b ≡ record a { in_flight = suc a.in_flight }
        → Step a b
    records :
        (n : ℕ)
        → a.in_flight ≡ suc n
        → b ≡ record { tracker = record_call a.tracker today key; in_flight = n }
        → Step a b

  pub data Reach (a : State) : State → Type 0 where
    here : Reach a a
    next : {b c : State} → Reach a b → Step b c → Reach a c

  -- The count, with what is in flight, stays below the limit and the number of workers.
  record IsBounded (limit : ℤ) (a : State) : Type 0 where
    configured : a.tracker.limit ≡ limit
    bounded : calls_on a.tracker today key + a.in_flight < pos_part limit + workers

  Step-IsBounded :
      {a b : State} (limit : ℤ) → pos 0 <ℤ limit → Step a b → IsBounded limit a → IsBounded limit b
  unfolding record_call
  Step-IsBounded {a} {b} limit h (checks passed room e) v =
      ground (arith, can_make_call_iff a.tracker today key, v.configured, v.bounded)
  Step-IsBounded {a} {b} limit h (records n m e) v = subst (IsBounded limit) (sym e) (record {
    configured = v.configured;
    bounded = ground (arith, v.bounded, calls_on-record_call a.tracker today key key);
  })

  Reach-IsBounded :
      {a b : State} (limit : ℤ) → pos 0 <ℤ limit → IsBounded limit a → Reach a b → IsBounded limit b
  Reach-IsBounded limit h v here = v
  Reach-IsBounded limit h v (next r st) = Step-IsBounded limit h st (Reach-IsBounded limit h v r)

  -- With a positive limit, with any number of workers and any interleaving of their checks and
  -- records, from no request in flight: if the day's count of a key is below the sum of the limit
  -- and the number of workers, it stays below it.
  pub calls_on-bounded :
      (st : SpendingTracker) (b : State)
      → pos 0 <ℤ st.limit
      → calls_on st today key < pos_part st.limit + workers
      → Reach (record { tracker = st; in_flight = 0 }) b
      → calls_on b.tracker today key < pos_part st.limit + workers
  calls_on-bounded st b h k r = omega (
    arith,
    (Reach-IsBounded st.limit h (record { configured = refl; bounded = omega arith }) r).bounded,
  )

  -- With a positive limit and at least two workers, from any tracker whose count of a key is one
  -- below the limit, there is a run of checks and records that leaves the count one above the
  -- limit.
  pub calls_on-overrun :
      (st : SpendingTracker)
      → pos 0 <ℤ st.limit
      → 2 ≤ workers
      → suc (calls_on st today key) ≡ pos_part st.limit
      → (b : State) × Reach (record { tracker = st; in_flight = 0 }) b
        × (calls_on b.tracker today key ≡ suc (pos_part st.limit))
  calls_on-overrun st h two e = (
    record { tracker = twice; in_flight = 0 },
    next
        (next
          (next (next here (checks passes (omega arith) refl)) (checks passes (omega arith) refl))
          (records 1 refl refl))
        (records 0 refl refl),
    ground (arith, calls_on-record_call st today key key, calls_on-record_call once today key key),
  )
    where
      once : SpendingTracker
      once = record_call st today key

      twice : SpendingTracker
      twice = record_call once today key

      passes : can_make_call st today key ≡ true
      passes = ground (arith, can_make_call_iff st today key h)

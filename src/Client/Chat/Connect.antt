-- ===== src/Client/Chat/Connect.antt =====
-- The retries of the connection.
use microchat_ai.Prelude.{
  ℕ, some, zero, suc, inl, inr, Option, Bytes, ◌≡◌, ◌≤◌, Option-cases, arith,
}
use microchat_ai.Client.Chat.{connect_from, connect}

-- The first `n` attempts from `k` on have failed.
abbrev Failed : (ℕ → Option Bytes) → ℕ → ℕ → Type 0
Failed attempt k zero = Unit
Failed attempt k (suc n) = ((e : Bytes) × (attempt k ≡ some e)) × Failed attempt (suc k) n

connect_from-Failed :
    (attempt : ℕ → Option Bytes) (left k : ℕ) (error : Bytes)
    → (connect_from attempt left k).0 ≡ some error
    → Failed attempt k (suc left)
unfolding connect_from
connect_from-Failed attempt zero k error h = ((error, h), tt)
connect_from-Failed attempt (suc left) k error h = elim (Option-cases (attempt k)) [
  | inl reached ↦ ground arith
  | inr (e, failed) ↦ ((e, failed), connect_from-Failed attempt left (suc k) error (ground arith))
]

-- If connect reports an error, its four attempts have failed.
connect-Failed :
    (attempt : ℕ → Option Bytes) (error : Bytes)
    → (connect attempt).0 ≡ some error
    → Failed attempt 0 4
unfolding connect
connect-Failed attempt error h = connect_from-Failed attempt 3 0 error h

-- It sleeps at most seven seconds.
connect-bounded : (attempt : ℕ → Option Bytes) → (connect attempt).1 ≤ 7
unfolding connect connect_from
connect-bounded attempt = ground arith

-- ===== src/Interceptor/Limit.antt =====
-- The keys under which requests are limited, and the chain of the two interceptors.
use microchat_ai.Prelude.{ℕ, ◌≡◌, ◌≢◌, arith, some, none, [], ◌∷◌, ◌++◌, Bytes, bytes, ◌↔◌}
use microchat_ai.GoMap.{GoMap}
use microchat_ai.Grpc.{Context, Status, err}
use microchat_ai.RateLimit
use microchat_ai.RateLimit.{Rate, IpLimiter}
use microchat_ai.Interceptor.{
  limit_key, rate_limit_interceptor, auth_interceptor, SpendingLimiter, health_method, chain,
  verdict,
}
use microchat_ai.Interceptor.Auth.{
  signed_in, Allowed, auth_interceptor_refused, auth_interceptor_complete,
}

pub append_cancel : (p s t : Bytes) → p ++ s ≡ p ++ t → s ≡ t
append_cancel [] s t e = e
append_cancel (b ∷ p) s t e = append_cancel p s t (cc)

-- Two authenticated requests share a limiter exactly when they have one API key.
limit_key-eq_iff :
    (a b : Context) (k l : Bytes)
    → a.api_key ≡ some k
    → b.api_key ≡ some l
    → (limit_key a ≡ limit_key b) ↔ (k ≡ l)
unfolding limit_key
limit_key-eq_iff a b k l p q =
    (λ e. append_cancel (bytes "api_key:") k l (ground arith), λ e. ground arith)

limit_key_apart :
    (a b : Context) (k : Bytes) → a.api_key ≡ some k → b.api_key ≡ none → limit_key a ≢ limit_key b
unfolding limit_key
limit_key_apart a b k p q e = ground arith

module _ (rate : Rate) {S : Type 0} (tracker : SpendingLimiter S) (api_keys : GoMap Bytes) (s : S)
    (il : IpLimiter rate) (now at : ℕ) (method : Bytes) (ctx : Context) where
  -- An allowed request other than the health check is recorded also where the rate limiter then
  -- refuses it, and it takes its token from the bucket of its API key.
  pub chain-Allowed :
      (key role : Bytes)
      → method ≢ health_method
      → Allowed tracker api_keys s method ctx key role
      → chain rate tracker api_keys s il now at method ctx ≡ (
        tracker.record_call s key,
        (RateLimit.allow rate il now at (bytes "api_key:" ++ key)).0,
        verdict rate
            (signed_in ctx key role)
            (RateLimit.allow rate il now at (bytes "api_key:" ++ key)).1,
      )
  unfolding chain rate_limit_interceptor limit_key
  chain-Allowed key role h a =
      rw (auth_interceptor_complete tracker api_keys s method ctx key role h a, chain)

  -- A request that is refused by the authentication takes no token from any bucket, and is not
  -- recorded.
  chain_refused :
      (e : Status)
      → (auth_interceptor tracker api_keys s method ctx).1 ≡ err e
      → chain rate tracker api_keys s il now at method ctx ≡ (s, il, err e)
  unfolding chain
  chain_refused e h = ground (arith, auth_interceptor_refused tracker api_keys s method ctx e h)

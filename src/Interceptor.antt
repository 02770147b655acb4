-- ===== src/Interceptor.antt =====
-- cmd/server/interceptor.go: the two interceptors and the client's address. An interceptor that
-- calls the handler does so last, so its result here is the context that it hands on.
pub mod Auth
pub mod Gate
pub mod Limit
use microchat_ai.Prelude.{
  ℕ, Bool, true, false, not, ◌&&◌, Option, none, some, List, [], ◌∷◌, ◌++◌, ite, if◌then◌else◌,
  length, ◌==◌, Bytes, bytes, Bytes_discrete, has_prefix, trim_prefix,
}
use microchat_ai.GoMap.{GoMap, get}
use microchat_ai.Grpc.{
  Code, unauthenticated, permission_denied, resource_exhausted, Result, ok, err, fails, Context,
  md_get,
}
use microchat_ai.RateLimit.{Rate, IpLimiter}
use microchat_ai.RateLimit
use microchat_ai.RateLimit.ExtractIp.{extract_ip}

-- The interface SpendingLimiter, over the state `S` of an implementation.
pub record SpendingLimiter (S : Type 0) : Type 0 where
  pub can_make_call : S → Bytes → Bool
  pub record_call : S → Bytes → S

abbrev pub bearer : Bytes
bearer = bytes "Bearer "

abbrev pub admin : Bytes
admin = bytes "admin"

abbrev pub health_method : Bytes
health_method = bytes "/chat.ChatService/Health"

abbrev pub get_metrics_method : Bytes
get_metrics_method = bytes "/chat.ChatService/GetMetrics"

-- The first value of the Authorization header.
unfoldable pub first_token : List Bytes → Result Bytes
first_token [] = fails unauthenticated (bytes "missing authorization header")
first_token (token ∷ more) = ok token

unfoldable pub read_token : Option (GoMap (List Bytes)) → Result Bytes
unfolding first_token
read_token none = fails unauthenticated (bytes "missing metadata")
read_token (some md) = first_token (md_get md (bytes "authorization"))

module _ {S : Type 0} (tracker : SpendingLimiter S) where
  -- From the admin check on, with the key and its role.
  unfoldable pub admit : S → Bytes → Context → Bytes → Bytes → S × Result Context
  admit s method ctx api_key role =
      if is_method && not is_admin
      then (s, fails permission_denied (bytes "admin access required"))
      else if tracker.can_make_call s api_key
      then (
        tracker.record_call s api_key,
        ok (record ctx { api_key = some api_key; user_role = some role }),
      )
      else (s, fails resource_exhausted (bytes "daily call limit exceeded"))
    where
      is_method : Bool
      is_method = ite (Bytes_discrete method get_metrics_method) true false

      is_admin : Bool
      is_admin = ite (Bytes_discrete role admin) true false

  unfoldable pub check_key : GoMap Bytes → S → Bytes → Context → Bytes → S × Result Context
  unfolding admit
  check_key api_keys s method ctx api_key = elim (get api_keys api_key) [
    | none ↦ (s, fails unauthenticated (bytes "invalid API key"))
    | some role ↦ admit s method ctx api_key role
  ]

  unfoldable pub check_token : GoMap Bytes → S → Bytes → Context → Result Bytes → S × Result Context
  unfolding check_key
  check_token api_keys s method ctx (err e) = (s, err e)
  check_token api_keys s method ctx (ok token) =
      if has_prefix token bearer
      then check_key api_keys s method ctx (trim_prefix token bearer)
      else (s, fails unauthenticated (bytes "invalid authorization format"))

  unfoldable pub auth_interceptor : GoMap Bytes → S → Bytes → Context → S × Result Context
  unfolding check_token read_token
  auth_interceptor api_keys s method ctx =
      ite (Bytes_discrete method health_method) (s, ok ctx)
        (if length api_keys == 0
          then (s, fails unauthenticated (bytes "no API keys configured - authentication required"))
          else check_token api_keys s method ctx (read_token ctx.metadata))

abbrev first_or_empty : List Bytes → Bytes
first_or_empty [] = []
first_or_empty (v ∷ vs) = v

abbrev forwarded_for : Option (GoMap (List Bytes)) → Bytes
forwarded_for none = []
forwarded_for (some md) = first_or_empty (md_get md (bytes "x-forwarded-for"))

abbrev client_ip_of : Option (GoMap (List Bytes)) → Option Bytes → Bytes
client_ip_of md none = bytes "unknown"
client_ip_of md (some remote_addr) = extract_ip remote_addr (forwarded_for md)

unfoldable pub extract_client_ip : Context → Bytes
extract_client_ip ctx = client_ip_of ctx.metadata ctx.peer

abbrev key_of : Context → Option Bytes → Bytes
key_of ctx none = bytes "ip:" ++ extract_client_ip ctx
key_of ctx (some api_key) = bytes "api_key:" ++ api_key

unfoldable pub limit_key : Context → Bytes
unfolding extract_client_ip
limit_key ctx = key_of ctx ctx.api_key

module _ (rate : Rate) where
  abbrev pub verdict : Context → Bool → Result Context
  verdict ctx true = ok ctx
  verdict ctx false = fails resource_exhausted (bytes "rate limit exceeded")

  unfoldable pub rate_limit_interceptor :
      IpLimiter rate → ℕ → ℕ → Context → IpLimiter rate × Result Context
  rate_limit_interceptor il now at ctx =
      let (il', allowed) = RateLimit.allow rate il now at (limit_key ctx) in
      (il', verdict ctx allowed)

  -- What follows AuthInterceptor.
  abbrev pub after_auth :
      {S : Type 0}
      → IpLimiter rate
      → ℕ
      → ℕ
      → S × Result Context
      → S × IpLimiter rate × Result Context
  after_auth il now at (s, err e) = (s, il, err e)
  after_auth il now at (s, ok ctx) =
      let (il', limited) = rate_limit_interceptor il now at ctx in (s, il', limited)

  -- grpc.ChainUnaryInterceptor(AuthInterceptor, RateLimitInterceptor) of cmd/server/main.go: the
  -- context that reaches the handler, or the status of the call.
  module _ {S : Type 0} (tracker : SpendingLimiter S) (api_keys : GoMap Bytes) where
    unfoldable pub chain :
        S → IpLimiter rate → ℕ → ℕ → Bytes → Context → S × IpLimiter rate × Result Context
    chain s il now at method ctx =
        after_auth il now at (auth_interceptor tracker api_keys s method ctx)

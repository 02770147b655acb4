-- ===== src/Interceptor/Gate.antt =====
-- The codes with which the interceptors refuse a request.
use microchat_ai.Prelude.{
  ite, ◌&&◌, not, ℕ, Bytes, bytes, Option, none, some, List, [], ◌∷◌, ◌≡◌, refl, Bytes_discrete,
  Bool, true, false, Bool-cases, inl, inr, has_prefix, trim_prefix, length, ◌==◌, ite_both,
  if◌then◌else◌,
}
use microchat_ai.GoMap.{GoMap, get}
use microchat_ai.Grpc.{
  fails, Result, ok, err, Context, Code, unauthenticated, permission_denied, resource_exhausted,
  md_get,
}
use microchat_ai.RateLimit.{Rate, IpLimiter}
use microchat_ai.Interceptor.{
  get_metrics_method, admin, health_method, SpendingLimiter, admit, check_key, check_token,
  first_token, read_token, auth_interceptor, rate_limit_interceptor, after_auth, verdict, bearer,
}

-- The codes of the interceptors.
abbrev pub IsGate : Code → Type 0
IsGate unauthenticated = Unit
IsGate permission_denied = Unit
IsGate resource_exhausted = Unit
IsGate _ = ⊥

abbrev pub GateError {ℓ} : {A : Type ℓ} → Result A → Type 0
GateError (ok a) = Unit
GateError (err e) = IsGate e.code

abbrev pub Exhausted {ℓ} : {A : Type ℓ} → Result A → Type 0
Exhausted (ok a) = Unit
Exhausted (err e) = e.code ≡ resource_exhausted

if_both : {A : Type 0} (P : A → Type 0) (b : Bool) {x y : A} → P x → P y → P (if b then x else y)
if_both P true p q = p
if_both P false p q = q

module _ {S : Type 0} (tracker : SpendingLimiter S) (api_keys : GoMap Bytes) (s : S)
    (method : Bytes) (ctx : Context) where
  admit-IsGate : (key role : Bytes) → GateError (admit tracker s method ctx key role).1
  unfolding admit
  admit-IsGate key role = elim (Bool-cases (tracker.can_make_call s key)) [
    | inl h ↦
        either (Bytes_discrete method get_metrics_method) (Bytes_discrete role admin) _ (rw h tt)
    | inr h ↦
        either (Bytes_discrete method get_metrics_method) (Bytes_discrete role admin) _ (rw h tt)
  ]
    where
      either :
          {P Q : Type 0} (p : Dec P) (q : Dec Q) (rest : S × Result Context)
          → GateError rest.1
          → GateError
              (if◌then◌else◌ {A = S × Result Context}
                (ite p true false && not (ite q true false))
                (s, fails permission_denied (bytes "admin access required"))
                rest).1
      either (yes p) (yes q) rest h = h
      either (yes p) (no q) rest h = tt
      either (no p) q rest h = h

  check_key-IsGate :
      (key : Bytes) (o : Option Bytes)
      → get api_keys key ≡ o
      → GateError (check_key tracker api_keys s method ctx key).1
  unfolding check_key
  check_key-IsGate key none e = rw (e, GateError) tt
  check_key-IsGate key (some role) e = rw (e, GateError) (admit-IsGate key role)

  check_token-IsGate :
      (token : Result Bytes)
      → GateError token
      → GateError (check_token tracker api_keys s method ctx token).1
  unfolding check_token
  check_token-IsGate (err e) h = h
  check_token-IsGate (ok token) h = elim (Bool-cases (has_prefix token bearer)) [
    | inl p ↦
        rw p (
          check_key-IsGate (trim_prefix token bearer) (get api_keys (trim_prefix token bearer))
            refl)
    | inr p ↦ rw p tt
  ]

  first_token-IsGate : (values : List Bytes) → GateError (first_token values)
  unfolding first_token
  first_token-IsGate [] = tt
  first_token-IsGate (token ∷ more) = tt

  read_token-IsGate : (md : Option (GoMap (List Bytes))) → GateError (read_token md)
  unfolding read_token
  read_token-IsGate none = tt
  read_token-IsGate (some md) = first_token-IsGate (md_get md (bytes "authorization"))

  -- AuthInterceptor refuses with one of three codes.
  pub auth_interceptor-IsGate : GateError (auth_interceptor tracker api_keys s method ctx).1
  unfolding auth_interceptor
  auth_interceptor-IsGate =
      ite_both (λ (a : S × Result Context). GateError a.1) (Bytes_discrete method health_method) tt
        (if_both (λ (a : S × Result Context). GateError a.1) (length api_keys == 0) tt
          (check_token-IsGate (read_token ctx.metadata) (read_token-IsGate ctx.metadata)))

module _ (rate : Rate) where
  pub verdict-Exhausted : (ctx : Context) (allowed : Bool) → Exhausted (verdict rate ctx allowed)
  verdict-Exhausted ctx true = tt
  verdict-Exhausted ctx false = refl

  verdict-IsGate : (ctx : Context) (allowed : Bool) → GateError (verdict rate ctx allowed)
  verdict-IsGate ctx true = tt
  verdict-IsGate ctx false = tt

  pub after_auth-IsGate :
      {S : Type 0} (il : IpLimiter rate) (now at : ℕ) (a : S × Result Context)
      → GateError a.1
      → GateError (after_auth rate il now at a).2
  unfolding rate_limit_interceptor
  after_auth-IsGate il now at (s, err e) h = h
  after_auth-IsGate il now at (s, ok ctx) h = verdict-IsGate ctx _

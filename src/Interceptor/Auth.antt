-- ===== src/Interceptor/Auth.antt =====
-- Whom AuthInterceptor lets through.
use microchat_ai.Prelude.{
  true, ◌≡◌, refl, arith, [], ◌∷◌, ◌++◌, Bytes, has_prefix, strip, trim_prefix, some, List, ◌≢◌,
  bytes, Option, length, if_neg, Bool-cases, ◌∙◌, ◌==◌, none, ap, false, inl, inr,
}
use microchat_ai.Grpc.{Context, ok, md_get, Status, err, Result}
use microchat_ai.Interceptor.{
  read_token, SpendingLimiter, bearer, auth_interceptor, get_metrics_method, admin, health_method,
  first_token, admit, check_token, check_key,
}
use microchat_ai.GoMap.{GoMap, get}

pub has_prefix-append : (p s : Bytes) → has_prefix (p ++ s) p ≡ true
unfolding has_prefix
has_prefix-append [] [] = refl
has_prefix-append [] (c ∷ s) = refl
has_prefix-append (b ∷ p) s = ground (arith, has_prefix-append p s)

strip-append : (p s : Bytes) → strip (p ++ s) p ≡ s
unfolding strip
strip-append [] [] = refl
strip-append [] (c ∷ s) = refl
strip-append (b ∷ p) s = strip-append p s

append-strip : (p s : Bytes) → has_prefix s p ≡ true → s ≡ p ++ strip s p
unfolding has_prefix strip
append-strip [] [] h = refl
append-strip [] (c ∷ s) h = refl
append-strip (b ∷ p) [] h = cc
append-strip (b ∷ p) (c ∷ s) h = ground (arith, append-strip p s)

pub trim_prefix-append : (p s : Bytes) → trim_prefix (p ++ s) p ≡ s
unfolding trim_prefix
trim_prefix-append p s = rw (has_prefix-append p s, trim_prefix) (strip-append p s)

pub append-trim_prefix : (p s : Bytes) → has_prefix s p ≡ true → s ≡ p ++ trim_prefix s p
unfolding trim_prefix
append-trim_prefix p s h = rw (h, trim_prefix) (append-strip p s h)

-- The context carries the key as a bearer token, in its first Authorization value.
pub record Presents (ctx : Context) (key : Bytes) : Type 0 where
  pub md : GoMap (List Bytes)
  pub more : List Bytes
  pub incoming : ctx.metadata ≡ some md
  pub header : md_get md (bytes "authorization") ≡ (bearer ++ key) ∷ more

first_token-eq-ok :
    (tokens : List Bytes) (token : Bytes)
    → first_token tokens ≡ ok token
    → (more : List Bytes) × (tokens ≡ token ∷ more)
unfolding first_token
first_token-eq-ok [] token e = cc
first_token-eq-ok (t ∷ more) token e = (more, cc)

read_token-Presents :
    (ctx : Context) (incoming : Option (GoMap (List Bytes))) (token : Bytes)
    → ctx.metadata ≡ incoming
    → read_token incoming ≡ ok token
    → has_prefix token bearer ≡ true
    → Presents ctx (trim_prefix token bearer)
unfolding read_token
read_token-Presents ctx none token m e h = cc
read_token-Presents ctx (some md) token m e h =
    let (more, header) = first_token-eq-ok (md_get md (bytes "authorization")) token e in
    record {
      md = md;
      more = more;
      incoming = m;
      header = header ∙ ap (λ t. t ∷ more) (append-trim_prefix bearer token h);
    }

read_token_of_Presents :
    (ctx : Context) (key : Bytes) → Presents ctx key → read_token ctx.metadata ≡ ok (bearer ++ key)
unfolding read_token first_token
read_token_of_Presents ctx key p = ground (arith, p.incoming, p.header)

length_of_get : (m : GoMap Bytes) (k v : Bytes) → get m k ≡ some v → (length m == 0) ≡ false
unfolding get
length_of_get [] k v e = cc
length_of_get (x ∷ m) k v e = ground arith

-- The context that the handler gets.
abbrev pub signed_in : Context → Bytes → Bytes → Context
signed_in ctx key role = record ctx { api_key = some key; user_role = some role }

module _ {S : Type 0} (tracker : SpendingLimiter S) (api_keys : GoMap Bytes) (s : S)
    (method : Bytes) (ctx : Context) where
  -- What a request must have: a configured key as its token, the admin role for GetMetrics, and a
  -- call left for the day.
  pub record Allowed (key role : Bytes) : Type 0 where
    pub presents : Presents ctx key
    pub configured : get api_keys key ≡ some role
    pub admin_only : method ≡ get_metrics_method → role ≡ admin
    pub within_limit : tracker.can_make_call s key ≡ true

  admit-Allowed :
      (key role : Bytes)
      → Allowed key role
      → admit tracker s method ctx key role
        ≡ (tracker.record_call s key, ok (signed_in ctx key role))
  unfolding admit
  admit-Allowed key role a = ground (arith, a.admin_only, a.within_limit)

  check_token-Allowed :
      (key role : Bytes)
      → Allowed key role
      → check_token tracker api_keys s method ctx (read_token ctx.metadata)
        ≡ (tracker.record_call s key, ok (signed_in ctx key role))
  unfolding check_token check_key
  check_token-Allowed key role a = ground (
    arith,
    read_token_of_Presents ctx key a.presents,
    has_prefix-append bearer key,
    trim_prefix-append bearer key,
    admit-Allowed key role a,
  )

  -- AuthInterceptor lets every allowed request other than the health check through, records its
  -- call, and hands on a context with its key and role.
  pub auth_interceptor_complete :
      (key role : Bytes)
      → method ≢ health_method
      → Allowed key role
      → auth_interceptor tracker api_keys s method ctx
        ≡ (tracker.record_call s key, ok (signed_in ctx key role))
  unfolding auth_interceptor
  auth_interceptor_complete key role h a =
      rw (if_neg _ h, length_of_get api_keys key role a.configured) (check_token-Allowed key role a)

  module _ (s' : S) (ctx' : Context) where
    abbrev Signed : Type 0
    Signed =
        (key : Bytes) × (role : Bytes) × Allowed key role
        × (s' ≡ tracker.record_call s key)
        × (ctx' ≡ signed_in ctx key role)

    admit_sound :
        (key role : Bytes)
        → Presents ctx key
        → get api_keys key ≡ some role
        → admit tracker s method ctx key role ≡ (s', ok ctx')
        → Signed
    unfolding admit
    admit_sound key role p g e = (
      key,
      role,
      record {
        presents = p;
        configured = g;
        admin_only = λ m. ground arith;
        within_limit = ground arith;
      },
      ground arith,
      ground arith,
    )

    check_key_sound :
        (key : Bytes) (o : Option Bytes)
        → get api_keys key ≡ o
        → Presents ctx key
        → check_key tracker api_keys s method ctx key ≡ (s', ok ctx')
        → Signed
    unfolding check_key
    check_key_sound key none g p e = ground arith
    check_key_sound key (some role) g p e = admit_sound key role p g (rw (g, check_key) at e)

    check_token_sound :
        (r : Result Bytes)
        → read_token ctx.metadata ≡ r
        → check_token tracker api_keys s method ctx r ≡ (s', ok ctx')
        → Signed
    unfolding check_token
    check_token_sound (err e) q h = ground arith
    check_token_sound (ok token) q h = elim (Bool-cases (has_prefix token bearer)) [
      | inl p ↦
          check_key_sound (trim_prefix token bearer) (get api_keys (trim_prefix token bearer)) refl
            (read_token-Presents ctx ctx.metadata token refl q p) (rw (p, check_token) at h)
      | inr p ↦ ground arith
    ]

    -- A request other than the health check that AuthInterceptor lets through is allowed: it
    -- carries a configured key as its bearer token, has the admin role if it asks for the metrics,
    -- and has a call left for the day. The call is recorded, and the context that is handed on
    -- holds the key and its role.
    pub auth_interceptor_sound :
        method ≢ health_method
        → auth_interceptor tracker api_keys s method ctx ≡ (s', ok ctx')
        → Signed
    unfolding auth_interceptor
    auth_interceptor_sound h e = elim (Bool-cases (length api_keys == 0)) [
      | inl empty ↦ ground arith
      | inr some_key ↦ check_token_sound (read_token ctx.metadata) refl (ground arith)
    ]

  -- A request that AuthInterceptor refuses is not recorded: the state of the spending limiter is as
  -- before.
  pub auth_interceptor_refused :
      (e : Status)
      → (auth_interceptor tracker api_keys s method ctx).1 ≡ err e
      → (auth_interceptor tracker api_keys s method ctx).0 ≡ s
  unfolding auth_interceptor
  auth_interceptor_refused e h = ground arith

-- ===== src/AdminAuth.antt =====
-- cmd/server/main.go: adminAuthWrapper, which guards the HTTP handlers of the profiler.
use microchat_ai.Prelude.{
  ℕ, none, some, inl, inr, Bytes, Option, bytes, ◌≡◌, ite, ◌∷◌, ◌↔◌, Bytes_discrete, if◌then◌else◌,
  has_prefix, arith, ◌++◌, trim_prefix, Bool-cases, [],
}
use microchat_ai.GoMap.{GoMap, get}
use microchat_ai.Interceptor.{admin, bearer}
use microchat_ai.Interceptor.Auth.{append-trim_prefix, has_prefix-append, trim_prefix-append}

-- The handler runs, or the request ends with this status and text.
pub data Guarded : Type 0 where
  proceeds : Guarded
  http_error : ℕ → Bytes → Guarded

abbrev check_role : Option Bytes → Guarded
check_role none = http_error 403 (bytes "Admin access required")
check_role (some role) =
    ite (Bytes_discrete role admin) proceeds (http_error 403 (bytes "Admin access required"))

-- `auth` is the Authorization header, empty if there is none.
unfoldable pub admin_auth : GoMap Bytes → Bytes → Guarded
admin_auth api_keys [] = http_error 401 (bytes "Authorization header required")
admin_auth api_keys (c ∷ s) =
    if has_prefix (c ∷ s) bearer
    then check_role (get api_keys (trim_prefix (c ∷ s) bearer))
    else http_error 401 (bytes "Authorization must use Bearer token")

check_role_iff : (o : Option Bytes) → (check_role o ≡ proceeds) ↔ (o ≡ some admin)
check_role_iff none = ground arith
check_role_iff (some role) = ground arith

-- The handler runs exactly for a request whose token is a configured key with the admin role.
pub admin_auth_iff :
    (api_keys : GoMap Bytes) (auth : Bytes)
    → (admin_auth api_keys auth ≡ proceeds)
      ↔ ((key : Bytes) × (auth ≡ bearer ++ key) × (get api_keys key ≡ some admin))
unfolding admin_auth
admin_auth_iff api_keys [] = (λ h. cc, λ (key, e, h). cc)
admin_auth_iff api_keys (c ∷ s) = (to, from)
  where
    to :
        admin_auth api_keys (c ∷ s) ≡ proceeds
        → (key : Bytes) × (c ∷ s ≡ bearer ++ key) × (get api_keys key ≡ some admin)
    to h = elim (Bool-cases (has_prefix (c ∷ s) bearer)) [
      | inl p ↦ (
        trim_prefix (c ∷ s) bearer,
        append-trim_prefix bearer (c ∷ s) p,
        (check_role_iff (get api_keys (trim_prefix (c ∷ s) bearer))).0 (rw (p, admin_auth) at h),
      )
      | inr p ↦ ground arith
    ]

    from :
        (key : Bytes) × (c ∷ s ≡ bearer ++ key) × (get api_keys key ≡ some admin)
        → admin_auth api_keys (c ∷ s) ≡ proceeds
    from (key, e, h) = ground (arith, has_prefix-append bearer key, trim_prefix-append bearer key)

-- ===== src/Grpc.antt =====
-- What the server uses of gRPC: status codes, and what a context carries (incoming metadata, the
-- peer's address, and the two values that AuthInterceptor adds).
use microchat_ai.Prelude.{Option, none, some, List, [], Bytes}
use microchat_ai.GoMap.{GoMap, get}

pub data Code : Type 0 where
  canceled invalid_argument deadline_exceeded not_found permission_denied : Code
  resource_exhausted unimplemented internal unavailable unauthenticated : Code

pub record Status : Type 0 where
  pub code : Code
  pub message : Bytes

-- A handler's result, with a nil error or a status.
pub data Result {ℓ} (A : Type ℓ) : Type ℓ where
  ok : A → Result A
  err : Status → Result A

abbrev pub fails {ℓ} : {A : Type ℓ} → Code → Bytes → Result A
fails code message = err (record { code = code; message = message })

-- The keys of the metadata are in lower case, as gRPC stores them.
pub record Context : Type 0 where
  pub metadata : Option (GoMap (List Bytes))
  pub peer : Option Bytes
  pub api_key : Option Bytes
  pub user_role : Option Bytes

abbrev values_of : Option (List Bytes) → List Bytes
values_of none = []
values_of (some vs) = vs

-- md.Get(key)
abbrev pub md_get : GoMap (List Bytes) → Bytes → List Bytes
md_get md key = values_of (get md key)

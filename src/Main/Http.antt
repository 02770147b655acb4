-- ===== src/Main/Http.antt =====
-- cmd/server/main.go: the handlers of the two HTTP servers that main starts. A path is one that
-- http.ServeMux does not clean first; a pattern that ends in a slash matches what starts with it.
use microchat_ai.Prelude.{
  Bytes, bytes, ◌≡◌, ◌++◌, Bool, true, false, ite, has_prefix, Bytes_discrete, some,
}
use microchat_ai.GoMap.{GoMap, get}
use microchat_ai.Interceptor.{admin, bearer}
use microchat_ai.AdminAuth.{admin_auth, Guarded, proceeds, http_error, admin_auth_iff}
use microchat_ai.Config.{parse_api_keys}
use microchat_ai.Config.Admins.{Names, parse_api_keys-admin}
use microchat_ai.Net.{split}
use microchat_ai.Main.{HttpServer, pprof, metrics}

-- Whether the server has a handler for the path.
abbrev pub has_handler : HttpServer → Bytes → Bool
has_handler pprof path = has_prefix path (bytes "/debug/pprof/")
has_handler metrics path = ite (Bytes_discrete path (bytes "/metrics")) true false

-- What a request gets; `auth` is its Authorization header.
abbrev pub handle : GoMap Bytes → Bytes → Bool → Guarded
handle api_keys auth true = admin_auth api_keys auth
handle api_keys auth false = http_error 404 (bytes "404 page not found")

unfoldable pub serve_http : GoMap Bytes → HttpServer → Bytes → Bytes → Guarded
serve_http api_keys server path auth = handle api_keys auth (has_handler server path)

handle-admin :
    (api_keys : GoMap Bytes) (auth : Bytes) (found : Bool)
    → handle api_keys auth found ≡ proceeds
    → (key : Bytes) × (auth ≡ bearer ++ key) × (get api_keys key ≡ some admin)
handle-admin api_keys auth true h = (admin_auth_iff api_keys auth).0 h
handle-admin api_keys auth false h = cc

-- If a request of the HTTP servers reaches the profiler or the metrics, its Authorization header
-- is "Bearer " and a key that an entry of API_KEYS names with the suffix ":admin".
pub serve_http-IsAdmin :
    (text : Bytes) (server : HttpServer) (path auth : Bytes)
    → serve_http (parse_api_keys text) server path auth ≡ proceeds
    → (key : Bytes) × (auth ≡ bearer ++ key) × Names key (split b',' text)
unfolding serve_http
serve_http-IsAdmin text server path auth h =
    let (key, e, found) = handle-admin (parse_api_keys text) auth (has_handler server path) h in
    (key, e, parse_api_keys-admin text key found)

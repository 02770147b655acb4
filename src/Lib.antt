-- ===== src/Lib.antt =====
-- microchat.ai: a chat service over gRPC. A client starts a session, sends messages and gets the
-- answers of a language model; the server keeps the histories in memory.
--
-- A request passes AuthInterceptor and RateLimitInterceptor (cmd/server/interceptor.go, chained in
-- cmd/server/main.go), which use the SpendingTracker (cmd/server/main.go) and the IPLimiter
-- (cmd/server/ratelimit/limiter.go). The handlers (cmd/server/grpc_handlers.go) then use the
-- SessionStore (cmd/server/session_store.go) and a provider of a language model.
--
-- The files, and the code that they model:
--   Session, Store     cmd/server/session_store.go. A store is a record with the fields of the Go
--                      struct; each method holds the lock for its whole body, and is a function
--                      from a store to a store and a result. Store/Evict and Store/Append are about
--                      AppendMessage, Store/Cleanup about CleanupIdleSessions, and Store/History
--                      about sequences of calls.
--   Spending           cmd/server/main.go: SpendingTracker. Spending/Race has the interleavings of
--                      CanMakeCall and RecordCall.
--   RateLimit          cmd/server/ratelimit/limiter.go, with ExtractIP in RateLimit/ExtractIp.
--   Interceptor        cmd/server/interceptor.go, and the chain of cmd/server/main.go.
--   Handlers           cmd/server/grpc_handlers.go: StartSession and Health here, the checks in
--                      Handlers/Validate, sanitizeForTerminal in Handlers/Sanitize, Chat in
--                      Handlers/Chat, GetHistory in Handlers/History.
--   Llm                cmd/server/llm: the interface, the echo provider and the factory here, the
--                      retry loop of gemini.go in Llm/Gemini and its request in
--                      Llm/Gemini/Request, mock_provider.go in Llm/Mock.
--   Config             cmd/server/main.go: loadConfig, and the store that main builds from it.
--   AdminAuth          cmd/server/main.go: adminAuthWrapper.
--   Metrics            cmd/server/metrics.go: updateBusinessMetrics here, the gauges, counters and
--                      histograms and the updater in Metrics/Registry, hashAPIKey in
--                      Metrics/Hash.
--   Service            cmd/server/main.go: the application, and how a request passes the
--                      interceptors to its handler; sequences of requests.
--   Main               cmd/server/main.go: main, as the actions that others see, and the handlers
--                      of its HTTP servers in Main/Http.
--   Client             cmd/client: the counters of metrics.go in Client/Metrics, and of main.go the
--                      connection and the loop over the user's lines in Client/Chat, attemptConnect
--                      in Client/Tls, displayMetrics in Client/Display, main in Client/Main.
--                      Client/Deployed puts the client at the server of Service.
--   LoadTest           cmd/loadtest/main.go: the results and Run here, runUser in LoadTest/User,
--                      calculatePercentile in LoadTest/Percentile, PrintResults and the verdict in
--                      LoadTest/Report, the settings of main in LoadTest/Settings.
--   Float              the operations of float64 that the load test uses, and laws of them.
--   Grpc, Net, GoMap   what the code uses of gRPC, of the packages strings and net, and of maps.
--   Prelude            numbers, lists, bytes and outcomes. A Go string is the list of its bytes.
--   Tests              runs at fixed inputs, and the theorems at concrete inputs.
--
-- An int is an integer without bounds, except where the text says how it wraps: the counter of
-- created sessions and those of the client and of the load test modulo 2^64, the limit on the size
-- of a session as an int64, the message count of a response modulo 2^32. A time is a number of nanoseconds since the
-- epoch, and is an argument of each function that reads the clock. A map is an association list;
-- the order in which Go ranges over one is not specified, and the theorems do not depend on it.
--
-- The loop that evicts sessions runs on fuel, one round more than the order has entries: a round
-- that finds the order empty changes nothing, so a loop that is not done by then never ends, which is
-- the outcome `diverges`. On a valid store with a positive limit it is not reached.
--
-- Parameters stand for code that is not in the repository: the token buckets of
-- golang.org/x/time/rate, uuid.Parse, the parsers of durations and floats, SHA-256, and what the
-- language model, the network, the files and the clock do. A float64 of the load test is an element
-- of a type with the operations that are used; the theorems assume laws of IEEE arithmetic on whole
-- numbers below 2^53, on the numbers between them, and on quotients of counts below 2^25
-- (Float/Laws).
--
-- A panic in a goroutine ends the program: a server whose cleanup interval is not positive ends so,
-- and what it does before the goroutine gets that far is left out. The client's input is a list of
-- lines whose reads succeed; a line of 64 KiB ends it, as in bufio.Scanner.
--
-- Not modelled: log lines, durations, what the gRPC, HTTP, TLS and Prometheus libraries do, the code
-- that is generated from proto/chat.proto, the prompts of the client and the log of the load test.
pub mod Prelude
pub mod GoMap
pub mod Session
pub mod Store
pub mod Spending
pub mod Net
pub mod RateLimit
pub mod Grpc
pub mod Interceptor
pub mod Handlers
pub mod AdminAuth
pub mod Client
pub mod Config
pub mod Float
pub mod Llm
pub mod LoadTest
pub mod Main
pub mod Metrics
pub mod Service
pub mod Tests

-- ===== src/Lib.antt =====
-- A verification library for GroundedSearch's Go code: the search API (apps/search-api) and the
-- project commands (tools/projectctl).
--
-- The process (apps/search-api/cmd/server/main.go) loads its configuration from the environment
-- (internal/config/config.go), builds a client of the Python ML service
-- (internal/mlclient/client.go) and a handler that reports on it (internal/httpapi/handler.go and
-- context.go), and serves it (internal/server/server.go) until the server stops or a signal
-- arrives. The project commands (tools/projectctl/main.go) run the repository's tests and builds.
--
-- Prelude holds the shared helpers, and Go the parts of Go's language and standard library that
-- the code uses: strings of bytes, errors with Is and As, strconv, ParseDuration, slog levels,
-- header maps, the paths that ServeMux compares, and encoding/json: Go.Json has the encoder,
-- Json.Strings and Json.Parser the decoder's grammar, Json.RoundTrip the round trip of the two.
--
-- Config models config.go. Values has the function for each kind of variable (stringValue,
-- intValue, durationValue, urlValue, logLevelValue), Load has LoadFromLookup with the checks in
-- its order, and Address the method Address. An error is a value of Go.Errors, which keeps the
-- texts of a message apart from the error that it wraps.
--
-- MlClient models client.go. Defs has the two constructors, Info validateModelInfo, and Fetch the
-- method ModelInfo with readBoundedBody and ensureSingleJSONValue: a call gives the requests that
-- were sent, the number of bodies that were closed and the result. Decode fills the struct
-- ModelInfo from a JSON value as encoding/json does, and RoundTrip and Strict say which bodies are
-- metadata.
--
-- HttpApi models handler.go and context.go. A handler acts on the State of one exchange (the
-- headers, what went out, the status recorder, the log, the fallback counter) and returns or
-- panics. State has the writers, Handlers and Dependency the handlers and their answers,
-- Middleware the four wrappers, and Serve the routes and NewHandler. Exchange.Reply says what the
-- service is meant to answer without any of these, and Contract what the public contract
-- (api/openapi) allows.
--
-- HttpApi.Distinct follows the request IDs of a process through its exchanges, and
-- HttpApi.EndToEnd one request for the status down to the client of the ML service and back;
-- HttpApi.Body reads the answers with the decoder.
--
-- Server models server.go, with net/http's server as a parameter. Main.Run models the function run
-- of main.go as a state machine whose events are the return of ListenAndServe, a signal, the
-- return of Shutdown, the shutdown timeout, and the case that a select takes; Main.Serving takes
-- these events from the interface runnableServer, Main.Launch models main, and Main.Output what
-- the two log and print.
--
-- Projectctl models tools/projectctl/main.go: Environment has setEnvironment, Commands the
-- commands as lists of actions, Locate the search for the repository and for Python, Run the
-- function run, and Main its end with an exit code. The search for the repository is on fuel, one
-- more than the length of the current directory's path. The loop of ParseDuration is on fuel, the
-- length of the text, which Go.Duration.Fuel shows to be enough. The JSON decoder is on fuel, two
-- for every byte, which Go.Json.Fuel.Enough shows to be enough; it keeps Go's bound of 10000
-- containers inside each other.
--
-- Samples and the modules named Examples hold the tests.
--
-- Parameters: net/url (Go.Url.UrlPackage), the decoder of a response (JsonPackage;
-- MlClient.Decode.go_json is that of encoding/json, up to the texts of its errors and the test
-- whether a number is a float64), the HTTP client (HttpDoer), the float arithmetic of
-- ParseDuration (FloatScale), the pages that ServeMux answers itself (MuxPages), net/http's server
-- (HttpPackage), and for the project commands processes, files and filepath (System, Files,
-- FilePaths). A theorem names what it assumes of them.
--
-- Not modelled: the Python service and scripts, the deployment files and the contracts; errors of
-- the connection while an answer is written; stack traces; the time in a record of the logger.
pub mod Prelude
pub mod Go
pub mod Config
pub mod MlClient
pub mod HttpApi
pub mod Server
pub mod Main
pub mod Projectctl
pub mod Samples

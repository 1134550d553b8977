-- ===== src/MlClient.antt =====
-- apps/search-api/internal/mlclient/client.go: the client of the ML service. net/url and the HTTP client
-- below it are parameters, and so is the decoder of a response, which Decode gives for encoding/json.
pub mod Defs
pub mod Info
pub mod Fetch
pub mod Decode
pub mod Bounded
pub mod Answers
pub mod Failures
pub mod Endpoint
pub mod Construct
pub mod RoundTrip
pub mod Strict
pub mod Examples

-- ===== src/HttpApi.antt =====
-- apps/search-api/internal/httpapi: the HTTP handler of the search API, with its middleware. A handler
-- acts on the state of one exchange and returns or panics.
pub mod State
pub mod RequestId
pub mod Dependency
pub mod Handlers
pub mod Middleware
pub mod Serve
pub mod Recorder
pub mod Exchange
pub mod RequestIds
pub mod Report
pub mod Classification
pub mod Examples
pub mod Contract
pub mod Unique
pub mod Distinct
pub mod EndToEnd
pub mod Body

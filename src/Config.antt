-- ===== src/Config.antt =====
-- apps/search-api/internal/config/config.go: the configuration of the search API, read from the
-- environment. Durations are nanoseconds. What `time.ParseDuration` computes with floats and what
-- `net/url` does are the parameters `float_scale` and `urls`.
pub mod Values
pub mod Load
pub mod Accepts
pub mod Describes
pub mod Usable
pub mod Port
pub mod Fits
pub mod Rejects
pub mod Relevance
pub mod Address
pub mod Examples

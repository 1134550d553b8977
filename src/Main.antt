-- ===== src/Main.antt =====
-- apps/search-api/cmd/server/main.go: the start of the process, and `run`, which serves until the
-- server stops or a signal arrives.
pub mod Run
pub mod Invariant
pub mod Progress
pub mod Launch
pub mod Start
pub mod Serving
pub mod Graceful
pub mod Output
pub mod Signals
pub mod Told
pub mod Examples

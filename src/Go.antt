-- ===== src/Go.antt =====
-- The parts of Go's language and standard library that the program's code uses.
pub mod Str
pub mod Strings
pub mod Errors
pub mod Strconv
pub mod Duration
pub mod Slog
pub mod Url
pub mod Http
pub mod Json
pub mod Path

-- ===== src/Projectctl.antt =====
-- tools/projectctl/main.go: the project's commands, the environment of the processes that they start,
-- and the search for the repository and for Python.
pub mod Environment
pub mod UpperCase
pub mod Variables
pub mod Commands
pub mod Executed
pub mod Order
pub mod Cleanup
pub mod Locate
pub mod Python
pub mod Nearest
pub mod Run
pub mod Main
pub mod Examples

-- ===== src/Program.antt =====
-- cmd/fabric8-jenkins-idler: the start of the program up to Idler.Run, with the goroutines that it
-- starts, and their end.
mod Startup
pub mod Shutdown
pub mod Wiring
pub mod Scaled
pub mod Checked
pub mod Crashed
pub mod Disabled
pub mod Woken
pub mod Logging
pub mod Features
unfoldable pub use Startup.*

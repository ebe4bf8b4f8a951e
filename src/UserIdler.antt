-- ===== src/UserIdler.antt =====
-- internal/idler: the goroutine of one user, which checks the conditions and idles or un-idles the
-- user's Jenkins.
mod Interfaces
mod Defs
pub mod Loop
pub mod Requests
pub mod Decision
pub mod Watched
unfoldable pub use Interfaces.*
unfoldable pub use Defs.*

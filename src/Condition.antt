-- ===== src/Condition.antt =====
-- internal/condition: the conditions that say whether a user's Jenkins is to be idled or un-idled,
-- and the map of conditions that joins their answers.
mod Defs
pub mod Builds
pub mod Combined
pub mod Proxied
unfoldable pub use Defs.*

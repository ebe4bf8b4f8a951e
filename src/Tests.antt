-- ===== src/Tests.antt =====
-- The theorems at concrete inputs: a user, a build, a tenant and servers that answer.
mod Data
pub mod Creation
pub mod Idling
pub mod Running
pub mod Handling
pub mod Events
pub mod Waking
pub mod Lost
pub mod Clients
pub mod Starting
pub mod Ending
pub mod Routing
pub mod Timed
pub mod Scaled
unfoldable pub use Data.*

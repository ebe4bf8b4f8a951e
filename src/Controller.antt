-- ===== src/Controller.antt =====
-- internal/openshift: the controller of one cluster, which turns build and deployment config events
-- into users for the user idlers.
mod Defs
mod UserIdlerMap
mod UnknownUsersMap
pub mod Events
pub mod Builds
pub mod Users
pub mod Safety
pub mod Queued
pub mod Creation
pub mod Deployments
unfoldable pub use Defs.*

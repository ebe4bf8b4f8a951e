-- ===== src/OpenshiftClient.antt =====
-- internal/openshift/client: the client of the OpenShift API, request by request.
mod Requests
mod Calls
pub mod Watch
pub mod Laws
pub mod Scaling
pub mod Unchecked
unfoldable pub use Requests.*
unfoldable pub use Calls.*

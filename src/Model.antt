-- ===== src/Model.antt =====
-- internal/model: the OpenShift objects that the idler reads and writes, and the user record that
-- it keeps for each namespace.
mod Openshift
mod Users
pub mod StringSet
pub mod Decoded
unfoldable pub use Openshift.*
unfoldable pub use Users.*

-- ===== src/Toggles.antt =====
-- internal/toggles/fixed_uuid_toggle.go: the users for whom the idler is enabled, as a fixed list.
pub mod Users
pub mod Unleash
use fabric8_jenkins_idler.Common.{String, Bool, List, Result, ok}
use fabric8_jenkins_idler.Util.{contains_string}

pub record FixedUuidToggle : Type 0 where
  pub uuids : List String

-- NewFixedUUIDToggle
unfoldable pub new_fixed_uuid_toggle : List String → Result FixedUuidToggle
new_fixed_uuid_toggle uuids = ok (record { uuids = uuids })

-- IsIdlerEnabled
unfoldable pub is_enabled : FixedUuidToggle → String → Result Bool
unfolding contains_string
is_enabled t uuid = ok (contains_string t.uuids uuid)

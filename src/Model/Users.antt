-- ===== src/Model/Users.antt =====
-- internal/model/user.go: the record of one user, and the predicates on its builds.
use fabric8_jenkins_idler.Common.{
  String, GoError, Time, Bool, true, false, not, ◌==◌, ◌||◌, ◌<>◌, Option, none, some,
  if◌then◌else◌, zero_time,
}
use fabric8_jenkins_idler.Model.Openshift.{Build, no_build, no_status}

pub record IdleStatus : Type 0 where
  pub timestamp : Time
  pub success : Bool
  pub reason : String

pub record User : Type 0 where
  pub name : String
  pub id : String
  pub active_build : Build
  pub done_build : Build
  pub jenkins_last_update : Time
  pub idle_status : IdleStatus

-- NewIdleStatus, at the instant `now`
unfoldable pub new_idle_status : Time → Option GoError → IdleStatus
new_idle_status now (some e) = record {
  timestamp = now;
  success = false;
  reason = "Failed to idle with error: " <> e;
}
new_idle_status now none = record { timestamp = now; success = true; reason = "Successfully idled" }

-- NewUnidleStatus, at the instant `now`
unfoldable pub new_unidle_status : Time → Option GoError → IdleStatus
new_unidle_status now (some e) = record {
  timestamp = now;
  success = false;
  reason = "Failed to un-idle with error: " <> e;
}
new_unidle_status now none = record {
  timestamp = now;
  success = true;
  reason = "Successfully un-idled";
}

-- `Build{Status: Status{Phase: "New"}}`
abbrev pub new_build : Build
new_build = record no_build { status = record no_status { phase = "New" } }

-- NewUser
unfoldable pub new_user : String → String → User
new_user id name = record {
  name = name;
  id = id;
  active_build = new_build;
  done_build = no_build;
  jenkins_last_update = zero_time;
  idle_status = record { timestamp = zero_time; success = false; reason = "" };
}

-- HasActiveBuilds: a length above 0 is a text that is not empty
unfoldable pub has_active_builds : User → Bool
has_active_builds u = not (u.active_build.metadata.name == "")

unfoldable pub has_completed_builds : User → Bool
has_completed_builds u = not (u.done_build.metadata.name == "")

unfoldable pub has_builds : User → Bool
unfolding has_active_builds has_completed_builds
has_builds u = has_active_builds u || has_completed_builds u

unfoldable pub last_build : User → Build
unfolding has_active_builds
last_build u = if has_active_builds u then u.active_build else u.done_build

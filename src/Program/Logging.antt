-- ===== src/Program/Logging.antt =====
-- cmd/fabric8-jenkins-idler/main.go: the level of the log, which init sets before main.
use fabric8_jenkins_idler.Common.{String, ◌==◌, Option, none, some, if◌then◌else◌}

-- the levels of logrus that init sets
pub data Level : Type 0 where
  info_level : Level
  debug_level : Level
  warn_level : Level
  error_level : Level

-- the text of os.LookupEnv, which is empty where the variable is not set
abbrev looked_up : Option String → String
looked_up none = ""
looked_up (some s) = s

-- the switch of init, by the variable `JC_LOG_LEVEL`
unfoldable pub init_level : Option String → Level
init_level variable =
    let level = looked_up variable in
    if level == "info"
    then info_level
    else if level == "debug"
    then debug_level
    else if level == "warning"
    then warn_level
    else if level == "error"
    then error_level
    else info_level

-- ===== src/Configuration.antt =====
-- internal/configuration/viper.go: the check of the settings. The settings of viper are a list, in the
-- order in which Go visits the map; `strings.ToUpper` and `url.ParseRequestURI` are arguments.
pub mod Verified
pub mod Settings
pub mod Printed
use fabric8_jenkins_idler.Common.{
  String, GoError, ◌==◌, Bool, List, [], ◌∷◌, Option, none, some, if◌then◌else◌,
}
use fabric8_jenkins_idler.Util.{MultiError, collect, Setting, is_not_empty, is_url}

abbrev pub auth_url : String
auth_url = "JC_AUTH_URL"

abbrev pub auth_grant_type : String
auth_grant_type = "JC_AUTH_GRANT_TYPE"

module _ (to_upper : String → String) (parse_request_uri : String → Bool) where
  -- the `switch` of Verify; all other cases continue
  unfoldable pub verify_setting : String → Setting → Option GoError
  verify_setting k v =
      if to_upper k == auth_url
      then is_url parse_request_uri v k
      else if to_upper k == auth_grant_type
      then is_not_empty v k
      else none

  unfoldable pub verify_from : List (String × Setting) → MultiError → MultiError
  unfolding verify_setting
  verify_from [] errors = errors
  verify_from ((k, v) ∷ config) errors = verify_from config (collect (verify_setting k v) errors)

  -- Verify
  unfoldable pub verify : List (String × Setting) → MultiError
  unfolding verify_from
  verify config = verify_from config []

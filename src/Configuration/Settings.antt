-- ===== src/Configuration/Settings.antt =====
-- internal/configuration/viper.go: the settings, with their defaults and the methods that read them.
-- The package viper is an argument.
use fabric8_jenkins_idler.Common.{
  String, ℤ, pos, ◌==◌, ◌<>◌, Bool, false, List, [], ◌∷◌, Result, ok, wrap_error, if◌then◌else◌,
}
use fabric8_jenkins_idler.Util.{Setting}
use fabric8_jenkins_idler.Configuration.{auth_url, auth_grant_type}

abbrev pub proxy_url : String
proxy_url = "JC_JENKINS_PROXY_API_URL"

abbrev pub tenant_url : String
tenant_url = "JC_F8TENANT_API_URL"

abbrev pub toggle_url : String
toggle_url = "JC_TOGGLE_API_URL"

abbrev pub service_account_id : String
service_account_id = "JC_SERVICE_ACCOUNT_ID"

abbrev pub service_account_secret : String
service_account_secret = "JC_SERVICE_ACCOUNT_SECRET"

abbrev pub auth_token_key : String
auth_token_key = "JC_AUTH_TOKEN_KEY"

abbrev pub idle_after : String
idle_after = "JC_IDLE_AFTER"

abbrev pub idle_long_build : String
idle_long_build = "JC_IDLE_LONG_BUILD"

abbrev pub max_retries : String
max_retries = "JC_MAX_RETRIES"

abbrev pub max_retries_quiet_interval : String
max_retries_quiet_interval = "JC_MAX_RETRIES_QUIET_INTERVAL"

abbrev pub check_interval : String
check_interval = "JC_CHECK_INTERVAL"

abbrev pub debug_mode : String
debug_mode = "JC_DEBUG_MODE"

abbrev pub fixed_uuids : String
fixed_uuids = "JC_FIXED_UUIDS"

-- a value that SetDefault takes
pub data Value : Type 0 where
  text : String → Value
  int : ℤ → Value
  flag : Bool → Value
  texts : List String → Value

-- the calls of SetDefault in setConfigDefaults, in order
abbrev pub config_defaults : List (String × Value)
config_defaults =
    (proxy_url, text "")
    ∷ (tenant_url, text "")
    ∷ (toggle_url, text "")
    ∷ (auth_url, text "authur")
    ∷ (service_account_id, text "")
    ∷ (service_account_secret, text "")
    ∷ (auth_token_key, text "")
    ∷ (auth_grant_type, text "client_credentials")
    ∷ (idle_after, int (pos 45))
    ∷ (idle_long_build, int (pos 3))
    ∷ (max_retries, int (pos 10))
    ∷ (max_retries_quiet_interval, int (pos 30))
    ∷ (check_interval, int (pos 15))
    ∷ (debug_mode, flag false)
    ∷ (fixed_uuids, texts [])
    ∷ []

-- viper: a registry over the environment with defaults, the reading of a file in YAML, and its getters
pub record Viper : Type 1 where
  pub Registry : Type 0
  pub with_defaults : List (String × Value) → Registry
  pub read_in_config : String → Registry → Result Registry
  pub get_string : Registry → String → String
  pub get_int : Registry → String → ℤ
  pub get_bool : Registry → String → Bool
  pub get_string_slice : Registry → String → List String
  pub all_settings : Registry → List (String × Setting)

module _ (v : Viper) where
  -- New
  unfoldable pub new : String → Result v.Registry
  new path =
      let c = v.with_defaults config_defaults in
      if path == ""
      then ok c
      else wrap_error (λ e. "Fatal error config file: " <> (e <> " \n")) (v.read_in_config path c)

  module _ (c : v.Registry) where
    unfoldable pub get_debug_mode : Bool
    get_debug_mode = v.get_bool c debug_mode

    unfoldable pub get_proxy_url : String
    get_proxy_url = v.get_string c proxy_url

    unfoldable pub get_tenant_url : String
    get_tenant_url = v.get_string c tenant_url

    unfoldable pub get_toggle_url : String
    get_toggle_url = v.get_string c toggle_url

    unfoldable pub get_auth_url : String
    get_auth_url = v.get_string c auth_url

    unfoldable pub get_service_account_id : String
    get_service_account_id = v.get_string c service_account_id

    unfoldable pub get_service_account_secret : String
    get_service_account_secret = v.get_string c service_account_secret

    unfoldable pub get_auth_token_key : String
    get_auth_token_key = v.get_string c auth_token_key

    unfoldable pub get_auth_grant_type : String
    get_auth_grant_type = v.get_string c auth_grant_type

    unfoldable pub get_idle_after : ℤ
    get_idle_after = v.get_int c idle_after

    unfoldable pub get_idle_long_build : ℤ
    get_idle_long_build = v.get_int c idle_long_build

    unfoldable pub get_max_retries : ℤ
    get_max_retries = v.get_int c max_retries

    unfoldable pub get_max_retries_quiet_interval : ℤ
    get_max_retries_quiet_interval = v.get_int c max_retries_quiet_interval

    unfoldable pub get_check_interval : ℤ
    get_check_interval = v.get_int c check_interval

    unfoldable pub get_fixed_uuids : List String
    get_fixed_uuids = v.get_string_slice c fixed_uuids

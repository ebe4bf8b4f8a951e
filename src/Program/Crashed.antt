-- ===== src/Program/Crashed.antt =====
-- How an answer of the auth service ends the process.
use fabric8_jenkins_idler.Common.{ok, crashes, nil_dereference, ◌≡◌}
use fabric8_jenkins_idler.Http.{Response}
use fabric8_jenkins_idler.Auth.{Client, new_client}
use fabric8_jenkins_idler.Auth.Requests.{exchange_token}
use fabric8_jenkins_idler.Cluster.Refused.{IsRefused, validate_response-crashes_iff}
use fabric8_jenkins_idler.Configuration.Settings.{get_auth_url}
use fabric8_jenkins_idler.Tokens.{AuthClient, TokenConfig, exchange, get_service_account_token}
use fabric8_jenkins_idler.Program.Startup.{
  World, Flags, goes_on, stops, panics, create_and_validate_configuration, auth_client,
  token_config, osio_token, main,
}

exchange_crashes :
    (a : AuthClient) (config : TokenConfig) (client : Client) (res : Response)
    → new_client a.parse_url config.auth_url "" ≡ ok client
    → exchange_token a.auth_server client "/api/token"
        (exchange a config)
        "application/x-www-form-urlencoded"
      ≡ ok res
    → IsRefused a.decode_errors res
    → get_service_account_token a config ≡ crashes nil_dereference
unfolding get_service_account_token
exchange_crashes a config client res made sent refused = rw (
  made,
  sent,
  (validate_response-crashes_iff a.decode_errors res).1 refused,
  get_service_account_token,
)

-- When the configuration is good and the auth service answers the exchange of the service account with
-- a status other than 200 and 404, and with errors of which one lacks its title, its status or its
-- code, then main ends with a panic for a nil pointer instead of the fatal error with that answer.
pub main_panics :
    (w : World) (flags : Flags) (config : w.viper.Registry) (client : Client) (res : Response)
    → create_and_validate_configuration w flags ≡ goes_on config
    → new_client w.parse_url (get_auth_url w.viper config) "" ≡ ok client
    → exchange_token w.auth_server client "/api/token"
        (exchange (auth_client w config) (token_config w config))
        "application/x-www-form-urlencoded"
      ≡ ok res
    → IsRefused w.decode_errors res
    → main w flags ≡ stops (panics nil_dereference)
unfolding main osio_token
main_panics w flags config client res configured made sent refused = rw (
  configured,
  exchange_crashes (auth_client w config) (token_config w config) client res made sent refused,
)

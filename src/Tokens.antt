-- ===== src/Tokens.antt =====
-- internal/token/service_account_token.go: the token of the service account. The decoders
-- of the client of the auth service are arguments.
pub mod Laws
pub mod Decode
pub mod Target
use fabric8_jenkins_idler.Common.{
  String, GoError, ◌==◌, ◌<>◌, Option, none, some, List, Result, ok, err, Attempt, gives, crashes,
  if◌then◌else◌,
}
use fabric8_jenkins_idler.Http.{Response}
use fabric8_jenkins_idler.Auth.{Url, Client, new_client}
use fabric8_jenkins_idler.Auth.Requests.{
  AuthServer, TokenExchange, exchange_token, exchange_token_path,
}
use fabric8_jenkins_idler.Cluster.{JsonApiError, validate_response}

-- ServiceAccountTokenServiceConfig
pub record TokenConfig : Type 0 where
  pub auth_url : String
  pub service_account_id : String
  pub service_account_secret : String
  pub auth_grant_type : String

-- url.Parse, the server, the generated client's decoders, and `%q` of fmt
pub record AuthClient : Type 0 where
  pub parse_url : String → Result Url
  pub auth_server : AuthServer
  pub decode_errors : Response → Result (List JsonApiError)
  -- the field AccessToken, which may be nil
  pub decode_oauth_token : Response → Result (Option String)
  pub quote : String → String

module _ (a : AuthClient) (config : TokenConfig) where
  abbrev pub from_server : String
  from_server = "error from server " <> (a.quote config.auth_url <> ": ")

  abbrev pub empty_token : GoError
  empty_token = "received empty token from server " <> a.quote config.auth_url

  abbrev pub exchange : TokenExchange
  exchange = record {
    client_id = config.service_account_id;
    client_secret = config.service_account_secret;
    grant_type = config.auth_grant_type;
  }

  abbrev pub access_token : Result (Option String) → Result String
  access_token (err e) = err (from_server <> e)
  access_token (ok none) = err empty_token
  access_token (ok (some t)) = if t == "" then err empty_token else ok t

  abbrev pub validated : Response → Attempt (Unit {0}) → Attempt String
  validated res (crashes e) = crashes e
  validated res (gives (err e)) = gives (err (from_server <> e))
  validated res (gives (ok _)) = gives (access_token (a.decode_oauth_token res))

  abbrev pub exchanged : Result Response → Attempt String
  exchanged (err e) = gives (err ("error while doing the request: " <> e))
  exchanged (ok res) = validated res (validate_response a.decode_errors res)

  abbrev pub connected : Result Client → Attempt String
  connected (err e) = gives (err ("error while initializing the auth client: " <> e))
  connected (ok c) = exchanged (
      exchange_token a.auth_server c exchange_token_path exchange
        "application/x-www-form-urlencoded")

  -- GetOAuthToken; its pointer is never nil beside a nil error
  unfoldable pub get_oauth_token : Attempt String
  unfolding validate_response
  get_oauth_token = connected (new_client a.parse_url config.auth_url "")

  -- GetServiceAccountToken, whose test for a nil pointer is never met
  unfoldable pub get_service_account_token : Attempt String
  unfolding get_oauth_token
  get_service_account_token = get_oauth_token

-- ===== src/Tokens/Laws.antt =====
-- When there is a token of the service account.
use fabric8_jenkins_idler.Common.{String, eq_iff, some, [], ok, gives, OnOk, ◌≡◌, ◌≢◌, ◌⊎◌, arith}
use fabric8_jenkins_idler.Auth.{new_client}
use fabric8_jenkins_idler.Auth.Requests.{exchange_token}
use fabric8_jenkins_idler.Cluster.{validate_response}
use fabric8_jenkins_idler.Tokens.{AuthClient, TokenConfig, exchange, get_oauth_token}

-- If there is a token, it is not empty; the address of the auth service could be parsed, and it
-- answered, without a token in the request, the exchange of the configured
-- account with it; and the status of the answer was 200, or was neither 200 nor 404 with a list of
-- errors that could be decoded and is empty.
pub get_oauth_token_ok :
    (a : AuthClient) (config : TokenConfig) (t : String)
    → get_oauth_token a config ≡ gives (ok t)
    → (t ≢ "")
      × OnOk (new_client a.parse_url config.auth_url "") (λ c.
        OnOk
          (exchange_token a.auth_server c "/api/token"
            (exchange a config)
            "application/x-www-form-urlencoded")
          (λ res.
            (a.decode_oauth_token res ≡ ok (some t))
            × ((res.status_code ≡ 200)
                ⊎ ((res.status_code ≢ 404) × (a.decode_errors res ≡ ok [])))))
unfolding get_oauth_token validate_response
get_oauth_token_ok a config t h = ground (arith, eq_iff t "")

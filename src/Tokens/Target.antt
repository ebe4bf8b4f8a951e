-- ===== src/Tokens/Target.antt =====
-- internal/token/service.go and resolve.go: the user and the token of a cluster.
use fabric8_jenkins_idler.Common.{
  String, GoError, ◌==◌, ◌<>◌, eq_iff, Bool, some, List, [], Result, ok, err, Attempt, gives,
  crashes, OnOk, ◌≡◌, ◌≢◌, ◌⊎◌, arith, if◌then◌else◌,
}
use fabric8_jenkins_idler.Http.{Response}
use fabric8_jenkins_idler.Auth.{Url, Client, new_client}
use fabric8_jenkins_idler.Auth.Requests.{AuthServer, retrieve_token, retrieve_token_path}
use fabric8_jenkins_idler.Cluster.{JsonApiError, validate_response}
use fabric8_jenkins_idler.Tokens.Decode.{Decode}

-- the fields of ExternalToken that are read
pub record ExternalToken : Type 0 where
  pub username : String
  pub access_token : String

-- url.Parse, the server, and the generated client's decoders
pub record TargetClient : Type 0 where
  pub parse_url : String → Result Url
  pub auth_server : AuthServer
  pub decode_errors : Response → Result (List JsonApiError)
  pub decode_external_token : Response → Result ExternalToken

module _ (a : TargetClient) (auth_url : String) where
  -- the name and the decoded token; an error of the decoder is returned as it is
  abbrev named : ExternalToken → Result String → Result (String × String)
  named t (err e) = err e
  named t (ok plain) = ok (t.username, plain)

  abbrev decoded : Decode → String → Result ExternalToken → Result (String × String)
  decoded decode target (err e) =
      err ("error while decoding the token for " <> (target <> (": " <> e)))
  decoded decode target (ok t) =
      if t.username == ""
      then err ("zero-length username from " <> auth_url)
      else named t (decode t.access_token)

  abbrev resolving : String → GoError → GoError
  resolving target e = "error while resolving the token for " <> (target <> (": " <> e))

  abbrev validated : Decode → String → Response → Attempt (Unit {0}) → Attempt (String × String)
  validated decode target res (crashes e) = crashes e
  validated decode target res (gives (err e)) = gives (err (resolving target e))
  validated decode target res (gives (ok _)) =
      gives (decoded decode target (a.decode_external_token res))

  abbrev retrieved : Decode → String → Result Response → Attempt (String × String)
  retrieved decode target (err e) = gives (err (resolving target e))
  retrieved decode target (ok res) =
      validated decode target res (validate_response a.decode_errors res)

  abbrev connected : Decode → String → Bool → Result Client → Attempt (String × String)
  connected decode target force_pull (err e) = gives (err e)
  connected decode target force_pull (ok c) =
      retrieved decode target
        (retrieve_token a.auth_server c retrieve_token_path target (some force_pull))

  -- ResolveTargetToken, which NewResolve returns for the address of the auth service
  unfoldable pub resolve_target_token : String → String → Bool → Decode → Attempt (String × String)
  unfolding validate_response
  resolve_target_token target token force_pull decode =
      if token == ""
      then gives (err "token must not be empty")
      else if target == ""
      then gives (err "target must not be empty")
      else connected decode target force_pull (new_client a.parse_url auth_url token)

-- If there is a token for a cluster, the given service token and the cluster are not empty; the auth
-- service answered with a user of a name that is not empty and an encoded token that the decoder
-- accepts; the answer's status was 200, or was neither 200 nor 404 with a list of errors that could
-- be decoded and is empty; and the user and the token are that name and the decoder's text.
pub resolve_target_token_ok :
    (a : TargetClient) (auth_url target token : String) (force_pull : Bool) (decode : Decode)
    (user plain : String)
    → resolve_target_token a auth_url target token force_pull decode ≡ gives (ok (user, plain))
    → (token ≢ "")
      × (target ≢ "")
      × (user ≢ "")
      × OnOk (new_client a.parse_url auth_url token) (λ c.
        OnOk (retrieve_token a.auth_server c "/api/token" target (some force_pull)) (λ res.
          ((res.status_code ≡ 200) ⊎ ((res.status_code ≢ 404) × (a.decode_errors res ≡ ok [])))
          × OnOk
              (a.decode_external_token res)
              (λ t. (t.username ≡ user) × (decode t.access_token ≡ ok plain))))
unfolding resolve_target_token validate_response
resolve_target_token_ok a auth_url target token force_pull decode user plain h =
    ground (arith, eq_iff token "", eq_iff target "", eq_iff user "")

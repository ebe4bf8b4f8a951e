-- ===== src/Auth/Requests/Sent.antt =====
-- The requests that the auth service answered.
use fabric8_jenkins_idler.Common.{
  String, ◌<>◌, eq_iff, false, none, some, [], ◌∷◌, Result, ok, err, ◌≡◌, ◌≢◌, arith,
}
use fabric8_jenkins_idler.Http.{Response}
use fabric8_jenkins_idler.Auth.{Url, client_of, Client, scheme_of, set_jwt_signer}
use fabric8_jenkins_idler.Auth.Requests.{AuthRequest, AuthServer, retrieve_token, show_clusters}

-- what NewClient returns: a client with the token and without a signer
pub new_client_fields :
    (r : Result Url) (token : String) (c : Client)
    → client_of token r ≡ ok c
    → (c.token ≡ token) × (c.jwt_signer ≡ none)
new_client_fields (ok u) token c h = ground arith
new_client_fields (err e) token c h = cc

module _ (a : AuthServer) (c : Client) where
  abbrev pub bearer : AuthRequest → AuthRequest
  bearer r = record r { authorization = some ("Bearer " <> c.token) }

  abbrev pub plain_get : String → String → AuthRequest
  plain_get path query = record {
    method = "GET";
    url = a.url_string (scheme_of c) c.host path query;
    authorization = none;
    content_type = none;
    body = "";
  }

  -- a GET of the token of a cluster, with the client's token
  abbrev pub token_request : String → AuthRequest
  token_request target =
      bearer
        (plain_get "/api/token" (a.encode_values (("for", target) ∷ ("force_pull", "false") ∷ [])))

  -- a GET of the clusters, with the client's token whatever the signer with a token does
  abbrev pub clusters_request : String → AuthRequest
  clusters_request token = bearer (a.sign token (plain_get "/api/clusters/" ""))

  pub retrieve_token-sent :
      (target : String) (res : Response)
      → c.token ≢ ""
      → c.jwt_signer ≡ none
      → retrieve_token a c "/api/token" target (some false) ≡ ok res
      → a.respond (token_request target) ≡ ok res
  unfolding retrieve_token
  retrieve_token-sent target res t unsigned h = ground (arith, eq_iff c.token "")

  pub show_clusters-sent :
      (token : String) (res : Response)
      → c.token ≢ ""
      → show_clusters a (set_jwt_signer token c) "/api/clusters/" ≡ ok res
      → a.respond (clusters_request token) ≡ ok res
  unfolding show_clusters
  show_clusters-sent token res t h = ground (arith, eq_iff c.token "")

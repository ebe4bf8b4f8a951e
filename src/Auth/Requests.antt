-- ===== src/Auth/Requests.antt =====
-- The calls of the auth service that the program makes: the parts of internal/auth/client that build
-- and send their requests, through the `doer` of internal/auth/auth_client.go. The libraries and the
-- server are the record `AuthServer`; the headers that goa's own client adds are left out.
pub mod Sent
use fabric8_jenkins_idler.Common.{
  String, ◌==◌, ◌<>◌, Bool, true, false, Option, none, some, List, [], ◌∷◌, Result, ok, err, ◌>>=◌,
  wrap_error, if◌then◌else◌,
}
use fabric8_jenkins_idler.Http.{Response}
use fabric8_jenkins_idler.Auth.{Client, scheme_of, authorization}

-- the fields of TokenExchange that are set
pub record TokenExchange : Type 0 where
  pub client_id : String
  pub client_secret : String
  pub grant_type : String

-- a request by what the program sets of it; the headers Authorization and Content-Type may be missing
pub record AuthRequest : Type 0 where
  pub method : String
  pub url : String
  pub authorization : Option String
  pub content_type : Option String
  pub body : String

pub record AuthServer : Type 0 where
  -- `String` of a `url.URL`, by its scheme, host, path and raw query
  pub url_string : String → String → String → String → String
  -- `Encode` of `url.Values`, by the values in the order in which they were set
  pub encode_values : List (String × String) → String
  -- the encoder of goa, by the content type
  pub encode : TokenExchange → String → Result String
  -- http.NewRequest, by the method and the URL
  pub new_request : String → String → Result (Unit {0})
  -- `Sign` of goa's signer for a token
  pub sign : String → AuthRequest → AuthRequest
  -- the server's answer, or the error of the transport
  pub respond : AuthRequest → Result Response

abbrev pub exchange_token_path : String
exchange_token_path = "/api/token"

abbrev pub retrieve_token_path : String
retrieve_token_path = "/api/token"

abbrev pub show_clusters_path : String
show_clusters_path = "/api/clusters/"

abbrev pub format_bool : Bool → String
format_bool true = "true"
format_bool false = "false"

module _ (a : AuthServer) (c : Client) where
  -- the header that `Do` of the doer sets where it has a token
  abbrev pub authorized : Option String → AuthRequest → AuthRequest
  authorized none r = r
  authorized (some header) r = record r { authorization = some header }

  -- Do
  unfoldable pub do_auth : AuthRequest → Result Response
  unfolding authorization
  do_auth r = a.respond (authorized (authorization c) r)

  -- `if c.JWTSigner != nil { c.JWTSigner.Sign(req) }`
  abbrev pub signed_by : Option String → AuthRequest → AuthRequest
  signed_by none r = r
  signed_by (some token) r = a.sign token r

  -- a GET with no body, signed
  abbrev pub get_request : String → String → Result AuthRequest
  get_request path query = do
    let url = a.url_string (scheme_of c) c.host path query
    _ ← a.new_request "GET" url
    ok (
        signed_by c.jwt_signer (record {
          method = "GET";
          url = url;
          authorization = none;
          content_type = none;
          body = "";
        }))

  unfoldable pub new_exchange_token_request : String → TokenExchange → String → Result AuthRequest
  new_exchange_token_request path payload content_type = do
    let kind = if content_type == "" then "*/*" else content_type
    body ← wrap_error (λ e. "failed to encode body: " <> e) (a.encode payload kind)
    let url = a.url_string (scheme_of c) c.host path ""
    _ ← a.new_request "POST" url
    ok (record {
      method = "POST";
      url = url;
      authorization = none;
      content_type = some (if kind == "*/*" then "application/json" else kind);
      body = body;
    })

  unfoldable pub exchange_token : String → TokenExchange → String → Result Response
  unfolding new_exchange_token_request do_auth
  exchange_token path payload content_type =
      new_exchange_token_request path payload content_type >>= do_auth

  abbrev pub with_force_pull : Option Bool → List (String × String) → List (String × String)
  with_force_pull none values = values
  with_force_pull (some b) values = ("force_pull", format_bool b) ∷ values

  unfoldable pub new_retrieve_token_request : String → String → Option Bool → Result AuthRequest
  new_retrieve_token_request path for_ force_pull =
      get_request path (a.encode_values (("for", for_) ∷ with_force_pull force_pull []))

  unfoldable pub retrieve_token : String → String → Option Bool → Result Response
  unfolding new_retrieve_token_request do_auth
  retrieve_token path for_ force_pull = new_retrieve_token_request path for_ force_pull >>= do_auth

  unfoldable pub new_show_clusters_request : String → Result AuthRequest
  new_show_clusters_request path = get_request path ""

  unfoldable pub show_clusters : String → Result Response
  unfolding new_show_clusters_request do_auth
  show_clusters path = new_show_clusters_request path >>= do_auth

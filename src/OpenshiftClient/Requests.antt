-- ===== src/OpenshiftClient/Requests.antt =====
-- The requests that openshift_client.go builds and sends. The server, `http.NewRequest` and
-- `encoding/json` are arguments; the requests that were sent are recorded, newest first.
use fabric8_jenkins_idler.Common.{
  String, GoError, ◌==◌, ◌<>◌, trim_suffix, nat_beq, pos, Bool, true, false, List, [], ◌∷◌, Option,
  none, some, Result, ok, err, format_int, if◌then◌else◌,
}
use fabric8_jenkins_idler.Http.{Response, status_ok}
use fabric8_jenkins_idler.Model.{Build, DeploymentConfig, Endpoint, Scale}

-- the value that json.Marshal turns into the body of a request
pub data Body : Type 0 where
  no_body : Body
  endpoint : Endpoint → Body
  deployment_config : DeploymentConfig → Body
  scale : Scale → Body

pub record Request : Type 0 where
  pub method : String
  pub url : String
  pub authorization : String
  pub watch : Bool
  -- the headers `Accept` and `Content-Type` of `patch`
  pub headers : List (String × String)
  pub body : Body

pub record Server : Type 0 where
  -- the error of http.NewRequest for a method and a URL
  pub new_request : String → String → Option GoError
  -- the answer to a request, by the requests before it
  pub respond : List Request → Request → Result Response
  pub decode_endpoint : String → Result Endpoint
  pub decode_deployment_config : String → Result DeploymentConfig
  pub decode_scale : String → Result Scale
  -- the names of the pods of a PodList
  pub decode_pods : String → Result (List String)
  -- the builds of a BuildList
  pub decode_builds : String → Result (List Build)
  -- the name of the `user` that WhoAmI reads
  pub decode_user : String → Result String
  -- time.Now().UTC().MarshalText()
  pub now_text : List Request → Result String

abbrev pub Exec : Type 0 → Type 0
Exec A = List Request → Result A × List Request

abbrev pub pure : {A : Type 0} → A → Exec A
pure a h = (ok a, h)

abbrev pub fail : {A : Type 0} → GoError → Exec A
fail e h = (err e, h)

abbrev pub lift : {A : Type 0} → Result A → Exec A
lift r h = (r, h)

abbrev pub continue :
    {A B : Type 0} → (A → Exec B) → Result A × List Request → Result B × List Request
continue f (ok a, h) = f a h
continue f (err e, h) = (err e, h)

infixl 10 ◌>>=◌ ◌>>◌
abbrev pub ◌>>=◌ : {A B : Type 0} → Exec A → (A → Exec B) → Exec B
◌>>=◌ x f h = continue f (x h)

abbrev pub ◌>>◌ : {B : Type 0} → Exec (Unit {0}) → Exec B → Exec B
x >> y = x >>= λ _. y

-- the URL that `req` builds
unfoldable pub request_url : String → Bool → String → String → String
request_url api_url oapi namespace command =
    let base = trim_suffix api_url "/" <> ("/" <> ((if oapi then "oapi" else "api") <> "/v1")) in
    let url = if namespace == "" then base else base <> ("/namespaces/" <> namespace) in
    url <> ("/" <> command)

abbrev pub status_error : Response → Request → GoError
status_error resp r =
    "got status "
    <> (resp.status <> (" (" <> (format_int (pos resp.status_code) <> (") from " <> r.url))))

abbrev pub check_status : Request → Result Response → Result Response
check_status r (err e) = err e
check_status r (ok resp) =
    if nat_beq resp.status_code status_ok then ok resp else err (status_error resp r)

abbrev pub accept : Request → Option GoError → Result Request
accept r none = ok r
accept r (some e) = err e

module _ (srv : Server) where
  -- http.NewRequest, whose error is returned
  abbrev pub checked : Request → Result Request
  checked r = accept r (srv.new_request r.method r.url)

  -- req
  unfoldable pub req :
      String → String → String → Bool → String → String → Body → Bool → Result Request
  req api_url bearer_token method oapi namespace command body watch = checked (record {
    method = method;
    url = request_url api_url oapi namespace command;
    authorization = "Bearer " <> bearer_token;
    watch = watch;
    headers = [];
    body = body;
  })

  unfoldable pub req_oapi : String → String → String → String → String → Body → Result Request
  unfolding req
  req_oapi api_url bearer_token method namespace command body =
      req api_url bearer_token method true namespace command body false

  unfoldable pub req_api : String → String → String → String → String → Body → Result Request
  unfolding req
  req_api api_url bearer_token method namespace command body =
      req api_url bearer_token method false namespace command body false

  unfoldable pub req_oapi_watch : String → String → String → String → String → Body → Result Request
  unfolding req
  req_oapi_watch api_url bearer_token method namespace command body =
      req api_url bearer_token method true namespace command body true

  -- do
  unfoldable pub do_request : Request → Exec Response
  do_request r h = (check_status r (srv.respond h r), r ∷ h)

  -- patch: the body of the answer
  unfoldable pub patch : Request → Exec String
  unfolding do_request
  patch r = do
    resp ← do_request (record r {
      headers =
          ("Accept", "application/json")
          ∷ ("Content-Type", "application/strategic-merge-patch+json")
          ∷ [];
    })
    lift resp.body

-- ===== src/Api.antt =====
-- internal/api/api.go: the handlers of the REST API, with the reply that each writes and the calls
-- of the OpenShift client and of the tenant service that it makes. The recorder of durations is in
-- Api/Timed; the log is left out.
pub mod UnIdling
pub mod Timed
pub mod Laws
use fabric8_jenkins_idler.Common.{
  String, GoError, ℕ, ◌==◌, ◌<>◌, trim_space, ℤ, ltb_ℤ, eqb_ℤ, Bool, true, false, ◌||◌, List, [],
  ◌∷◌, ◌++◌, Option, none, some, Result, ok, err, if◌then◌else◌,
}
use fabric8_jenkins_idler.Http.{status_ok}
use fabric8_jenkins_idler.ConcurrentMap.{ConcurrentMap}
use fabric8_jenkins_idler.Model.{PodState, pod_starting, pod_running, pod_state_string}
use fabric8_jenkins_idler.Model.StringSet.{add_all, remove_all}
use fabric8_jenkins_idler.Cluster.{Cluster, DnsView, get_token, get_dns_view}
use fabric8_jenkins_idler.UserIdler.{
  ServiceRef, Call, ask_state, ask_capacity, send_idle, send_un_idle, Services, jenkins_services,
}

abbrev pub status_bad_request : ℕ
status_bad_request = 400

abbrev pub status_internal_server_error : ℕ
status_internal_server_error = 500

abbrev pub status_service_unavailable : ℕ
status_service_unavailable = 503

pub record ResponseError : Type 0 where
  pub code : ℕ
  pub description : String

abbrev pub token_fetch_failed : ℕ
token_fetch_failed = 1

abbrev pub open_shift_client_error : ℕ
open_shift_client_error = 2

-- statusResponse: the text of the state, and the errors
pub record StatusResponse : Type 0 where
  pub data_state : Option String
  pub errors : List ResponseError

abbrev pub no_status : StatusResponse
no_status = record { data_state = none; errors = [] }

unfoldable pub append_error : ℕ → String → StatusResponse → StatusResponse
append_error code description s = record s {
  errors = s.errors ++ (record { code = code; description = description }) ∷ [];
}

unfoldable pub set_state : PodState → StatusResponse → StatusResponse
set_state state s = record s { data_state = some (pod_state_string state) }

-- what a handler writes as the body
pub data Body : Type 0 where
  no_body : Body
  -- `{"error": "…"}`
  error_body : GoError → Body
  is_idle_body : Bool → Body
  status_body : StatusResponse → Body
  dns_body : List DnsView → Body
  users_body : List String → Body

pub record Reply : Type 0 where
  pub code : ℕ
  pub body : Body

abbrev pub header : ℕ → Reply
header code = record { code = code; body = no_body }

-- writeResponse, whose bodies json can encode, and respondWithError
abbrev pub write_response : ℕ → Body → Reply
write_response code body = record { code = code; body = body }

abbrev pub respond_with_error : ℕ → GoError → Reply
respond_with_error code e = write_response code (error_body e)

-- what the handlers read of a request: the values of the query's parameter `openshift_api_url`, and
-- the parameter `namespace` of the path
pub record HttpRequest : Type 0 where
  pub openshift_api_url : List String
  pub namespace : String

abbrev pub token_for : String → Option String → Result (String × String)
token_for url (some token) = ok (url, token)
token_for url none = err ("Unknown or invalid OpenShift API URL: " <> url)

-- getURLAndToken
unfoldable pub get_url_and_token : List Cluster → HttpRequest → Result (String × String)
get_url_and_token clusters r = first r.openshift_api_url
  where
    first : List String → Result (String × String)
    first [] = err "OpenShift API URL needs to be specified"
    first (url ∷ urls) = token_for url (get_token clusters url)

abbrev pub jenkins_ref : String → String → String → String → ServiceRef
jenkins_ref url token namespace service = record {
  api_url = url;
  bearer_token = token;
  namespace = namespace;
  service = service;
}

-- a handler: the reply, and the calls made so far with its own, newest first
abbrev pub Handler : Type 0
Handler = List Call → Reply × List Call

abbrev pub reply : Reply → Handler
reply r h = (r, h)

-- isJenkinsUnIdled's test of the state
unfoldable pub is_un_idled : PodState → Bool
is_un_idled state = eqb_ℤ state pod_starting || eqb_ℤ state pod_running

module _ (sv : Services) (clusters : List Cluster) where
  abbrev pub idled_one : Option GoError → Handler → Handler
  idled_one (some e) next = reply (respond_with_error status_internal_server_error e)
  idled_one none next = next

  -- the loop of Idle over the services
  unfoldable pub idle_all : String → String → String → List String → Handler
  idle_all url token namespace [] h = (header status_ok, h)
  idle_all url token namespace (service ∷ services) h =
      let ref = jenkins_ref url token namespace service in
      idled_one (sv.idle h ref) (idle_all url token namespace services) (send_idle ref ∷ h)

  abbrev pub idle_with : HttpRequest → Result (String × String) → Handler
  idle_with r (err e) = reply (respond_with_error status_bad_request e)
  idle_with r (ok (url, token)) = idle_all url token r.namespace jenkins_services

  unfoldable pub idle : HttpRequest → Handler
  unfolding idle_all get_url_and_token
  idle r = idle_with r (get_url_and_token clusters r)

  -- the loop of UnIdle over the services
  unfoldable pub un_idle_all : String → String → String → List String → Handler
  un_idle_all url token ns [] h = (header status_ok, h)
  un_idle_all url token ns (service ∷ services) h =
      let ref = jenkins_ref url token ns service in
      idled_one (sv.un_idle h ref) (un_idle_all url token ns services) (send_un_idle ref ∷ h)

  abbrev pub un_idle_capacity : String → String → String → Result Bool → Handler
  un_idle_capacity url token ns (err e) = reply (respond_with_error status_internal_server_error e)
  un_idle_capacity url token ns (ok true) = reply (
      respond_with_error status_service_unavailable
        ("Maximum Resource limit reached on " <> (url <> (" for " <> ns))))
  un_idle_capacity url token ns (ok false) = un_idle_all url token ns jenkins_services

  abbrev pub un_idle_state : String → String → String → Result PodState → Handler
  un_idle_state url token ns (err e) h = (respond_with_error status_internal_server_error e, h)
  un_idle_state url token ns (ok state) h =
      if is_un_idled state
      then (header status_ok, h)
      else un_idle_capacity url token ns (sv.has_reached_max_capacity h url ns)
          (ask_capacity url ns ∷ h)

  abbrev pub un_idle_with : HttpRequest → Result (String × String) → Handler
  un_idle_with r (err e) h = (respond_with_error status_bad_request e, h)
  un_idle_with r (ok (url, token)) h =
      let ns = trim_space r.namespace in
      let ref = jenkins_ref url token ns "jenkins" in
      if ns == ""
      then (respond_with_error status_bad_request "Missing mandatory param namespace", h)
      else un_idle_state url token ns (sv.state h ref) (ask_state ref ∷ h)

  unfoldable pub un_idle : HttpRequest → Handler
  unfolding un_idle_all is_un_idled get_url_and_token
  un_idle r = un_idle_with r (get_url_and_token clusters r)

  abbrev pub is_idle_state : Result PodState → Reply
  is_idle_state (err e) = respond_with_error status_internal_server_error e
  is_idle_state (ok state) = write_response status_ok (is_idle_body (ltb_ℤ state pod_running))

  abbrev pub is_idle_with : HttpRequest → Result (String × String) → Handler
  is_idle_with r (err e) h = (respond_with_error status_bad_request e, h)
  is_idle_with r (ok (url, token)) h =
      let ref = jenkins_ref url token r.namespace "jenkins" in
      (is_idle_state (sv.state h ref), ask_state ref ∷ h)

  unfoldable pub is_idle : HttpRequest → Handler
  unfolding get_url_and_token
  is_idle r = is_idle_with r (get_url_and_token clusters r)

  abbrev pub status_state : Result PodState → Reply
  status_state (err e) = write_response status_internal_server_error (
      status_body
        (append_error open_shift_client_error ("openshift client error: " <> e) no_status))
  status_state (ok state) = write_response status_ok (status_body (set_state state no_status))

  abbrev pub status_with : HttpRequest → Result (String × String) → Handler
  status_with r (err e) h = (
    write_response status_bad_request (
        status_body
          (append_error token_fetch_failed ("failed to obtain openshift token: " <> e) no_status)),
    h,
  )
  status_with r (ok (url, token)) h =
      let ref = jenkins_ref url token r.namespace "jenkins" in
      (status_state (sv.state h ref), ask_state ref ∷ h)

  unfoldable pub status : HttpRequest → Handler
  unfolding append_error set_state get_url_and_token
  status r = status_with r (get_url_and_token clusters r)

  unfoldable pub cluster_dns_view : Reply
  cluster_dns_view = write_response status_ok (dns_body (get_dns_view clusters))

  -- Reset, by the client's answer for a URL, a token and a namespace
  abbrev pub reset_answer : Option GoError → Reply
  reset_answer (some e) = respond_with_error status_internal_server_error e
  reset_answer none = header status_ok

  abbrev pub reset_with :
      (String → String → String → Option GoError) → HttpRequest → Result (String × String) → Reply
  reset_with client_reset r (err e) = respond_with_error status_bad_request e
  reset_with client_reset r (ok (url, token)) = reset_answer (client_reset url token r.namespace)

  unfoldable pub reset : (String → String → String → Option GoError) → HttpRequest → Reply
  unfolding get_url_and_token
  reset client_reset r = reset_with client_reset r (get_url_and_token clusters r)

pub record UserStatus : Type 0 where
  pub disable : List String
  pub enable : List String

module _ (cm : ConcurrentMap Bool) where
  open cm use {Map, keys}

  -- SetUserIdlerStatus, by the decoded body
  unfoldable pub set_user_idler_status : Result UserStatus → Map → Reply × Map
  unfolding add_all remove_all
  set_user_idler_status (err e) disabled = (respond_with_error status_bad_request e, disabled)
  set_user_idler_status (ok users) disabled =
      (header status_ok, remove_all cm (add_all cm disabled users.disable) users.enable)

  unfoldable pub get_disabled_user_idlers : Map → Reply
  get_disabled_user_idlers disabled = write_response status_ok (users_body (keys disabled))

-- ===== src/OpenshiftClient/Calls.antt =====
-- The calls of openshift_client.go: Idle, UnIdle, State, Reset, WhoAmI and getBuilds.
use fabric8_jenkins_idler.Common.{
  String, GoError, ◌==◌, ◌<>◌, trim_suffix, contains, pos, eqb_ℤ, Bool, true, false, List, [], ◌∷◌,
  wrap_error, if◌then◌else◌,
}
use fabric8_jenkins_idler.Model.{
  PodState, pod_idled, pod_starting, pod_running, Build, DcStatus, DeploymentConfig, Endpoint,
  Scale, no_annotations, no_metadata, no_spec,
}
use fabric8_jenkins_idler.OpenshiftClient.Requests.{
  no_body, endpoint, deployment_config, scale, Server, Exec, pure, fail, lift, ◌>>=◌, ◌>>◌, checked,
  req_oapi, req_api, do_request, patch,
}

abbrev pub no_dc_status : DcStatus
no_dc_status = record {
  replicas = pos 0;
  ready_replicas = pos 0;
  conditions = [];
  observed_generation = pos 0;
  unavailable_replicas = pos 0;
}

-- the patch of the endpoint that Idle sends
abbrev pub idled_endpoint : String → String → Endpoint
idled_endpoint idle_at service = record {
  metadata = record no_metadata {
    annotations = record no_annotations {
      idled_at = idle_at;
      unidle_targets =
          "[{\"kind\":\"DeploymentConfig\",\"name\":\"" <> (service <> "\",\"replicas\":1}]");
    };
  };
}

-- the patch of the deployment config that Idle sends
abbrev pub idled_config : String → DeploymentConfig
idled_config idle_at = record {
  metadata = record no_metadata {
    annotations = record no_annotations { idled_at = idle_at; prev_scale = "1" };
  };
  status = no_dc_status;
  spec = record no_spec { replicas = pos 0 };
}

-- the scale that UnIdle sends
abbrev pub one_replica : String → String → Scale
one_replica namespace service = record {
  kind = "Scale";
  api_version = "extensions/v1beta1";
  metadata = record no_metadata { name = service; namespace = namespace };
  replicas = pos 1;
}

-- a test whose failure is an error
abbrev pub require : Bool → GoError → Exec (Unit {0})
require true e = pure tt
require false e = fail e

module _ (srv : Server) (api_url bearer_token namespace : String) where
  -- The check of the first answer compares the request's own annotation, as the source does.
  unfoldable pub idle : String → Exec (Unit {0})
  unfolding req_api req_oapi patch
  idle service = do
    idle_at ← (λ h. (srv.now_text h, h))
    let e = idled_endpoint idle_at service
    r ←
        lift (
          req_api srv api_url bearer_token "PATCH" namespace ("endpoints/" <> service) (endpoint e))
    b ← patch srv r
    ne ← lift (srv.decode_endpoint b)
    require (e.metadata.annotations.idled_at == idle_at) "could not update endpoint with idle time"
    r2 ← lift (
        req_oapi srv api_url bearer_token "PATCH" namespace ("deploymentconfigs/" <> service)
          (deployment_config (idled_config idle_at)))
    b2 ← patch srv r2
    ndc ← lift (srv.decode_deployment_config b2)
    require (eqb_ℤ ndc.spec.replicas (pos 0)) "could not update DeploymentConfig with replica count"

  unfoldable pub un_idle : String → Exec (Unit {0})
  unfolding req_oapi do_request
  un_idle service = do
    let s = one_replica namespace service
    r ← lift (
        req_oapi srv api_url bearer_token "PUT" namespace
          ("deploymentconfigs/" <> (service <> "/scale")) (scale s))
    resp ← do_request srv r
    b ← lift resp.body
    ns ← lift (srv.decode_scale b)
    require (eqb_ℤ ns.replicas s.replicas) "could not scale the service"

  -- the state by the replicas of the deployment config
  unfoldable pub state_of : DcStatus → PodState
  state_of s =
      if eqb_ℤ s.replicas (pos 0)
      then pod_idled
      else if eqb_ℤ s.ready_replicas (pos 0)
      then pod_starting
      else pod_running

  unfoldable pub state : String → Exec PodState
  unfolding req_oapi do_request state_of
  state service = do
    r ← lift (
        req_oapi srv api_url bearer_token "GET" namespace ("deploymentconfigs/" <> service) no_body)
    resp ← do_request srv r
    b ← lift resp.body
    dc ← lift (srv.decode_deployment_config b)
    pure (state_of dc.status)

  -- the loop of Reset over the pods: those with `deploy` in their name stay
  unfoldable pub delete_pods : List String → Exec (Unit {0})
  unfolding req_api do_request
  delete_pods [] = pure tt
  delete_pods (pod ∷ pods) =
      let rest = delete_pods pods in
      let deletion : Exec (Unit {0}) = (do
        r ← lift (req_api srv api_url bearer_token "DELETE" namespace ("pods/" <> pod) no_body)
        resp ← do_request srv r
        rest) in
      if contains pod "deploy" then rest else deletion

  unfoldable pub reset : Exec (Unit {0})
  unfolding req_api do_request delete_pods
  reset = do
    r ← lift (req_api srv api_url bearer_token "GET" namespace "pods" no_body)
    resp ← do_request srv r
    b ← lift resp.body
    pods ← lift (srv.decode_pods b)
    delete_pods pods

  unfoldable pub get_builds : Exec (List Build)
  unfolding req_oapi do_request
  get_builds = do
    r ← lift (req_oapi srv api_url bearer_token "GET" namespace "builds" no_body)
    resp ← do_request srv r
    b ← lift resp.body
    lift (srv.decode_builds b)

abbrev pub whoami_error : GoError → GoError
whoami_error e = "unable to retrieve the username from the `whoami` API endpoint: " <> e

-- WhoAmI uses Go's default HTTP client and does not look at the status of the answer.
unfoldable pub who_am_i : Server → String → String → Exec String
who_am_i srv api_url bearer_token = do
  r ← lift (
      wrap_error whoami_error (
        checked srv (record {
          method = "GET";
          url = trim_suffix api_url "/" <> "/apis/user.openshift.io/v1/users/~";
          authorization = "Bearer " <> bearer_token;
          watch = false;
          headers = ("Accept", "application/json") ∷ [];
          body = no_body;
        })))
  resp ← (λ h. (wrap_error whoami_error (srv.respond h r), r ∷ h))
  b ← lift resp.body
  lift (srv.decode_user b)

-- ===== src/OpenshiftClient/Scaling.antt =====
-- What Idle, UnIdle and State of the OpenShift client send and check.
use fabric8_jenkins_idler.Common.{
  String, ◌<>◌, pos, true, false, List, [], ◌∷◌, none, ok, OnOk, ◌≡◌, arith,
}
use fabric8_jenkins_idler.OpenshiftClient.Requests.{
  endpoint, deployment_config, scale, Request, Server, request_url,
}
use fabric8_jenkins_idler.OpenshiftClient.Calls.{
  idle, un_idle, idled_endpoint, idled_config, one_replica,
}

abbrev pub patch_headers : List (String × String)
patch_headers =
    ("Accept", "application/json") ∷ ("Content-Type", "application/strategic-merge-patch+json") ∷ []

module _ (api_url bearer_token namespace service : String) where
  abbrev pub endpoint_patch : String → Request
  endpoint_patch idle_at = record {
    method = "PATCH";
    url = request_url api_url false namespace ("endpoints/" <> service);
    authorization = "Bearer " <> bearer_token;
    watch = false;
    headers = patch_headers;
    body = endpoint (idled_endpoint idle_at service);
  }

  abbrev pub config_patch : String → Request
  config_patch idle_at = record {
    method = "PATCH";
    url = request_url api_url true namespace ("deploymentconfigs/" <> service);
    authorization = "Bearer " <> bearer_token;
    watch = false;
    headers = patch_headers;
    body = deployment_config (idled_config idle_at);
  }

  abbrev pub scale_put : Request
  scale_put = record {
    method = "PUT";
    url = request_url api_url true namespace ("deploymentconfigs/" <> (service <> "/scale"));
    authorization = "Bearer " <> bearer_token;
    watch = false;
    headers = [];
    body = scale (one_replica namespace service);
  }

  module _ (srv : Server) (before : List Request) where
    -- If Idle returns nil, it has sent the two patches, with one time stamp, the endpoint's first; and
    -- OpenShift answered the second with status 200 and a deployment config of 0 replicas.
    pub idle_success :
        (idle srv api_url bearer_token namespace service before).0 ≡ ok tt
        → OnOk (srv.now_text before) (λ idle_at.
          ((idle srv api_url bearer_token namespace service before).1
            ≡ config_patch idle_at ∷ endpoint_patch idle_at ∷ before)
          × OnOk (srv.respond (endpoint_patch idle_at ∷ before) (config_patch idle_at)) (λ resp.
            (resp.status_code ≡ 200)
            × OnOk resp.body
                (λ b. OnOk (srv.decode_deployment_config b) (λ dc. dc.spec.replicas ≡ pos 0))))
    unfolding idle
    idle_success h = ground arith

    -- If UnIdle returns nil, it has sent the scale of one replica and nothing else, and OpenShift
    -- answered it with status 200 and a scale of one replica.
    pub un_idle_success :
        (un_idle srv api_url bearer_token namespace service before).0 ≡ ok tt
        → ((un_idle srv api_url bearer_token namespace service before).1 ≡ scale_put ∷ before)
          × OnOk (srv.respond before scale_put) (λ resp.
            (resp.status_code ≡ 200)
            × OnOk resp.body (λ b. OnOk (srv.decode_scale b) (λ s. s.replicas ≡ pos 1)))
    unfolding un_idle
    un_idle_success h = ground arith

    -- UnIdle sends the scale of one replica and nothing else, whatever OpenShift answers, where
    -- http.NewRequest accepts the URL.
    pub un_idle_sends :
        srv.new_request "PUT" scale_put.url ≡ none
        → (un_idle srv api_url bearer_token namespace service before).1 ≡ scale_put ∷ before
    unfolding un_idle
    un_idle_sends h = ground arith

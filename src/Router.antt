-- ===== src/Router.antt =====
-- internal/router/router.go: the routes of the REST API, and what the server does with a request.
-- httprouter, which matches a request with a route, and the page of the metrics are parameters; the
-- start and the end of the server are in Program/Shutdown.
pub mod Effects
pub mod Listed
use fabric8_jenkins_idler.Common.{
  String, GoError, List, [], ◌∷◌, ◌++◌, Bool, Option, none, some, Result,
}
use fabric8_jenkins_idler.ConcurrentMap.{ConcurrentMap}
use fabric8_jenkins_idler.Cluster.{Cluster}
use fabric8_jenkins_idler.UserIdler.{Call, Services}
use fabric8_jenkins_idler.Api.{
  HttpRequest, Reply, UserStatus, idle, un_idle, is_idle, status, cluster_dns_view, reset,
  set_user_idler_status, get_disabled_user_idlers,
}

-- the methods of IdlerAPI, and the handler of prometheus
pub data Handle : Type 0 where
  idle_handle un_idle_handle is_idle_handle status_handle : Handle
  cluster_dns_view_handle reset_handle get_disabled_handle set_status_handle : Handle
  metrics_handle : Handle

pub record Route : Type 0 where
  pub method : String
  pub path : String
  pub handle : Handle

abbrev route : String → String → Handle → Route
route method path handle = record { method = method; path = path; handle = handle }

-- CreateAPIRouter
unfoldable pub create_api_router : List Route
create_api_router =
    route "GET" "/api/idler/idle/:namespace" idle_handle
    ∷ route "GET" "/api/idler/idle/:namespace/" idle_handle
    ∷ route "GET" "/api/idler/unidle/:namespace" un_idle_handle
    ∷ route "GET" "/api/idler/unidle/:namespace/" un_idle_handle
    ∷ route "GET" "/api/idler/isidle/:namespace" is_idle_handle
    ∷ route "GET" "/api/idler/isidle/:namespace/" is_idle_handle
    ∷ route "GET" "/api/idler/status/:namespace" status_handle
    ∷ route "GET" "/api/idler/status/:namespace/" status_handle
    ∷ route "GET" "/api/idler/cluster" cluster_dns_view_handle
    ∷ route "GET" "/api/idler/cluster/" cluster_dns_view_handle
    ∷ route "POST" "/api/idler/reset/:namespace" reset_handle
    ∷ route "POST" "/api/idler/reset/:namespace/" reset_handle
    ∷ route "GET" "/api/idler/userstatus" get_disabled_handle
    ∷ route "GET" "/api/idler/userstatus/" get_disabled_handle
    ∷ route "POST" "/api/idler/userstatus" set_status_handle
    ∷ route "POST" "/api/idler/userstatus/" set_status_handle
    ∷ []

-- Router.AddMetrics
unfoldable pub add_metrics : List Route → List Route
add_metrics routes = routes ++ route "GET" "/metrics" metrics_handle ∷ []

-- the routes that the process serves
abbrev pub api_routes : List Route
api_routes = add_metrics create_api_router

-- a request that reaches the server: with its body, if that is decoded as a `userStatus`
pub record Incoming : Type 0 where
  pub method : String
  pub path : String
  pub openshift_api_url : List String
  pub user_status : Result UserStatus

-- what the handlers call, and httprouter: the handle that it finds for a method and a path, with the
-- parameter `namespace`, and its reply where it finds none
pub record Backend : Type 0 where
  pub services : Services
  pub clusters : List Cluster
  pub client_reset : String → String → String → Option GoError
  pub metrics : Reply
  pub lookup : List Route → String → String → Option (Handle × String)
  pub unrouted : String → String → Reply

module _ (cm : ConcurrentMap Bool) where
  open cm use {Map}

  -- the calls made so far, newest first, and the disabled users
  pub record Served : Type 0 where
    pub calls : List Call
    pub disabled : Map

  module _ (b : Backend) where
    abbrev pub called : Served → Reply × List Call → Reply × Served
    called s (reply, calls) = (reply, record s { calls = calls })

    abbrev pub stored : Served → Reply × Map → Reply × Served
    stored s (reply, disabled) = (reply, record s { disabled = disabled })

    -- a method of the API on a request
    unfoldable pub handle_by : Handle → Incoming → HttpRequest → Served → Reply × Served
    handle_by idle_handle r q s = called s (idle b.services b.clusters q s.calls)
    handle_by un_idle_handle r q s = called s (un_idle b.services b.clusters q s.calls)
    handle_by is_idle_handle r q s = called s (is_idle b.services b.clusters q s.calls)
    handle_by status_handle r q s = called s (status b.services b.clusters q s.calls)
    handle_by cluster_dns_view_handle r q s = (cluster_dns_view b.services b.clusters, s)
    handle_by reset_handle r q s = (reset b.services b.clusters b.client_reset q, s)
    handle_by get_disabled_handle r q s = (get_disabled_user_idlers cm s.disabled, s)
    handle_by set_status_handle r q s = stored s (set_user_idler_status cm r.user_status s.disabled)
    handle_by metrics_handle r q s = (b.metrics, s)

    abbrev pub routed : Incoming → Served → Option (Handle × String) → Reply × Served
    routed r s none = (b.unrouted r.method r.path, s)
    routed r s (some (h, namespace)) =
        handle_by h r (record { openshift_api_url = r.openshift_api_url; namespace = namespace }) s

    -- a request to the server of the routes
    unfoldable pub serve : List Route → Incoming → Served → Reply × Served
    unfolding handle_by
    serve routes r s = routed r s (b.lookup routes r.method r.path)

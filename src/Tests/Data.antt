-- ===== src/Tests/Data.antt =====
-- The inputs of the tests.
use fabric8_jenkins_idler.Common.{
  Option, some, String, ◌*◌, pos, Time, second, Bool, true, false, [], ◌∷◌, none, Result, ok, err,
  gives,
}
use fabric8_jenkins_idler.Http.{Response}
use fabric8_jenkins_idler.ConcurrentMap.{ConcurrentMap, assoc_map}
use fabric8_jenkins_idler.Model.{
  PodState, pod_idled, Build, no_build, no_metadata, no_spec, Object, DcObject, Condition, User,
}
use fabric8_jenkins_idler.Condition.{Outside, Conditions, build, dc}
use fabric8_jenkins_idler.Tenant.{InfoList, InfoData, TenantWorld, TenantService}
use fabric8_jenkins_idler.UserIdler.{Services, UserIdler, Machine}
use fabric8_jenkins_idler.UserIdler.Loop.{Routine}
use fabric8_jenkins_idler.Controller.{Config}
use fabric8_jenkins_idler.OpenshiftClient.{
  Server, no_dc_status, one_replica, idled_config, idled_endpoint,
}
use fabric8_jenkins_idler.Cluster.{Cluster, ClusterData, Sources}

-- the value of an option, or the other value
abbrev pub value_of : {A : Type 0} → A → Option A → A
value_of a none = a
value_of a (some b) = b

abbrev pub build_1 : Build
build_1 = record {
  metadata = record no_metadata { name = "build-1"; namespace = "alice" };
  status = record {
    phase = "Complete";
    start_timestamp = 10 * second;
    completion_timestamp = 20 * second;
  };
  spec = record no_spec { strategy = record { type = "JenkinsPipeline" } };
}

abbrev pub alice : User
alice = record {
  name = "alice";
  id = "1";
  active_build = no_build;
  done_build = build_1;
  jenkins_last_update = 30 * second;
  idle_status = record { timestamp = 0; success = false; reason = "" };
}

-- a second after the build, and a day after it
abbrev pub soon : Time
soon = 21 * second

abbrev pub late : Time
late = 86400 * second

abbrev pub at : Time → Outside
at t = record {
  clock = λ name. t;
  http_get = λ url. err "offline";
  unmarshal = λ s. err "no answer";
}

-- services that answer every call, at a time, with a state of Jenkins
abbrev pub answering : Time → PodState → Services
answering t p = record {
  is_idler_enabled = λ h id. ok true;
  state = λ h r. ok p;
  has_reached_max_capacity = λ h api ns. ok false;
  idle = λ h r. none;
  un_idle = λ h r. none;
  outside = λ h. at t;
  now = λ h. t;
  sprintf = λ s. s;
}

abbrev pub full : Services
full = record (answering soon pod_idled) { has_reached_max_capacity = λ h api ns. ok true }

abbrev pub two_conditions : Conditions
two_conditions =
    (
      "build",
      build (record { idle_after = pos (60 * second); idle_long_build = pos (60 * second) }),
    )
    ∷ ("dc", dc (record { idle_after = pos (60 * second) }))
    ∷ []

abbrev pub idler_of : User → UserIdler
idler_of u = record {
  open_shift_api = "https://api";
  open_shift_bearer_token = "token";
  max_retries = pos 3;
  idle_attempts = 0;
  un_idle_attempts = 0;
  conditions = two_conditions;
  user = u;
}

abbrev pub machine_of : User → Machine
machine_of u = record { idler = idler_of u; calls = [] }

abbrev pub config : Config
config = record {
  openshift_url = "https://api";
  os_bearer_token = "token";
  max_retries = pos 3;
  idle_after = pos 45;
  idle_long_build = pos 3;
}

abbrev pub routine_of : User → Routine
routine_of u = record { machine = machine_of u; queue = []; armed = true; running = true }

abbrev pub idlers : ConcurrentMap Routine
idlers = assoc_map

abbrev pub set : ConcurrentMap Bool
set = assoc_map

abbrev pub tenant_data : InfoData
tenant_data = record {
  id = "1";
  type = "tenants";
  email = "alice@example.com";
  namespaces =
      (record {
        cluster_url = "https://api/";
        name = "alice-jenkins";
        state = "created";
        type = "jenkins";
        cluster_capacity_exhausted = true;
      })
      ∷ [];
}

abbrev pub one_tenant : InfoList
one_tenant = record { items = tenant_data ∷ []; total_count = pos 1; errors = [] }

abbrev pub no_tenant : InfoList
no_tenant = record {
  items = [];
  total_count = pos 0;
  errors = (record { code = "500"; detail = "unavailable" }) ∷ [];
}

abbrev pub tenants : String → String → Result InfoList
tenants api ns = ok one_tenant

abbrev pub good : Response
good = record { status_code = 200; status = "200 OK"; body = ok "{}" }

abbrev pub tenant_world : TenantWorld
tenant_world = record {
  new_request = λ url. ok tt;
  send = λ r. ok good;
  unmarshal = λ s. ok one_tenant;
}

abbrev pub tenant_service : TenantService
tenant_service = record { tenant_service_url = "https://tenant"; auth_token = "token" }

abbrev pub available : Condition
available = record { type = "Available"; last_update_time = 40 * second; status = "true" }

abbrev pub dc_event_1 : DcObject
dc_event_1 = record {
  type = "MODIFIED";
  object = record {
    metadata = record no_metadata { name = "jenkins"; namespace = "alice-jenkins" };
    status = record no_dc_status { conditions = available ∷ [] };
    spec = no_spec;
  };
}

abbrev pub build_event_1 : Object
build_event_1 = record { type = "ADDED"; object = build_1 }

-- a server that does what it is told
abbrev pub server : Server
server = record {
  new_request = λ method url. none;
  respond = λ h r. ok good;
  decode_endpoint = λ s. ok (idled_endpoint "now" "jenkins");
  decode_deployment_config = λ s. ok (idled_config "now");
  decode_scale = λ s. ok (one_replica "alice-jenkins" "jenkins");
  decode_pods = λ s. ok ("jenkins-1-deploy" ∷ "jenkins-1-abc" ∷ []);
  decode_builds = λ s. ok [];
  decode_user = λ s. ok "idler";
  now_text = λ h. ok "now";
}

abbrev pub cluster_1 : Cluster
cluster_1 = record {
  api_url = "https://api";
  console_url = "https://console";
  metrics_url = "https://metrics";
  logging_url = "https://logging";
  app_dns = "apps.example.com";
  user = "idler";
  token = "token";
  type = "OSO";
}

abbrev pub cluster_data : ClusterData
cluster_data = record {
  api_url = "https://api";
  console_url = "https://console";
  metrics_url = "https://metrics";
  logging_url = "https://logging";
  app_dns = "apps.example.com";
  type = "OSO";
}

abbrev pub sources : Sources
sources = record {
  auth_url = "https://auth";
  show_clusters = ok good;
  decode_errors = λ r. ok [];
  decode_cluster_list = λ r. ok (cluster_data ∷ []);
  resolve_token = λ url. gives (ok ("idler", "token"));
  who_am_i = λ url token. ok "idler";
  quote = λ s. s;
}

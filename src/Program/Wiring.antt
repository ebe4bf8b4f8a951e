-- ===== src/Program/Wiring.antt =====
-- The user idlers with the clients that they are given: the interfaces of UserIdler/Interfaces, met by
-- the OpenShift client, by the tenant client and by the features.
use fabric8_jenkins_idler.Common.{
  String, GoError, Time, Bool, List, [], ◌∷◌, Option, none, some, Result, ok, err,
}
use fabric8_jenkins_idler.Condition.{Outside}
use fabric8_jenkins_idler.Tenant.{TenantWorld, TenantService, reached_max_capacity}
use fabric8_jenkins_idler.OpenshiftClient.{Request, Server, idle, un_idle, state}
use fabric8_jenkins_idler.UserIdler.{
  Call, ask_enabled, ask_state, ask_capacity, send_idle, send_un_idle, Services,
}

-- the servers, the features and the clock
pub record Wiring : Type 0 where
  pub openshift : Server
  pub tenant_world : TenantWorld
  pub tenant_service : TenantService
  pub features : String → Result Bool
  pub outside : List Call → Outside
  pub now : List Call → Time
  pub sprintf : String → String

abbrev pub error_of : Result (Unit {0}) → Option GoError
error_of (ok a) = none
error_of (err e) = some e

module _ (w : Wiring) where
  -- the requests that the calls of an idler sent to OpenShift, newest first
  unfoldable pub traffic : List Call → List Request
  traffic [] = []
  traffic (ask_enabled id ∷ cs) = traffic cs
  traffic (ask_capacity api ns ∷ cs) = traffic cs
  traffic (ask_state r ∷ cs) =
      (state w.openshift r.api_url r.bearer_token r.namespace r.service (traffic cs)).1
  traffic (send_idle r ∷ cs) =
      (idle w.openshift r.api_url r.bearer_token r.namespace r.service (traffic cs)).1
  traffic (send_un_idle r ∷ cs) =
      (un_idle w.openshift r.api_url r.bearer_token r.namespace r.service (traffic cs)).1

  -- the services of an idler
  unfoldable pub connected : Services
  unfolding traffic
  connected = record {
    is_idler_enabled = λ h id. w.features id;
    state = λ h r. (state w.openshift r.api_url r.bearer_token r.namespace r.service (traffic h)).0;
    has_reached_max_capacity =
        λ h api ns. reached_max_capacity w.tenant_world w.tenant_service api ns;
    idle = λ h r.
        error_of (idle w.openshift r.api_url r.bearer_token r.namespace r.service (traffic h)).0;
    un_idle = λ h r.
        error_of (un_idle w.openshift r.api_url r.bearer_token r.namespace r.service (traffic h)).0;
    outside = w.outside;
    now = w.now;
    sprintf = w.sprintf;
  }

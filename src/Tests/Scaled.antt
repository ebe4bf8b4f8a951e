-- ===== src/Tests/Scaled.antt =====
-- Checks of a user idler with its clients, up to the requests that OpenShift gets.
use fabric8_jenkins_idler.Common.{
  String, OnOk, ◌==◌, pos, Time, true, false, [], ◌∷◌, some, ok, ◌≡◌, refl, arith, if◌then◌else◌,
}
use fabric8_jenkins_idler.Http.{Response}
use fabric8_jenkins_idler.Util.{empty}
use fabric8_jenkins_idler.Model.{DeploymentConfig}
use fabric8_jenkins_idler.Condition.{eval, eval_one}
use fabric8_jenkins_idler.Tenant.{InfoList, reached_max_capacity, get_tenant_info_by_namespace}
use fabric8_jenkins_idler.OpenshiftClient.{
  Server, no_dc_status, idled_config, one_replica, state, idle, un_idle,
}
use fabric8_jenkins_idler.OpenshiftClient.Scaling.{config_patch, endpoint_patch, scale_put}
use fabric8_jenkins_idler.UserIdler.{check_idle}
use fabric8_jenkins_idler.UserIdler.Decision.{WantsIdle, WantsUnIdle}
use fabric8_jenkins_idler.Program.Wiring.{Wiring, traffic, connected}
use fabric8_jenkins_idler.Program.Scaled.{before_idle, before_un_idle, after_check, check_scales_up}
use fabric8_jenkins_idler.ConcurrentMap.{assoc_map}
use fabric8_jenkins_idler.Model.StringSet
use fabric8_jenkins_idler.UserIdler.Loop.{Routine}
use fabric8_jenkins_idler.UserIdler.Loop
use fabric8_jenkins_idler.Controller.Events.{System, users_changed, idler_event, initial, run}
use fabric8_jenkins_idler.Program.Disabled.{disabled_scaled_down}
use fabric8_jenkins_idler.Tests.Data.{
  idlers, set, config, routine_of, alice, soon, late, at, machine_of, good, server, tenant_world,
  tenant_service, tenant_data, one_tenant,
}

-- a server with a Jenkins that runs
abbrev up : Response
up = record good { body = ok "up" }

abbrev running_config : DeploymentConfig
running_config = record (idled_config "now") {
  status = record no_dc_status { replicas = pos 1; ready_replicas = pos 1 };
}

abbrev busy : Server
busy = record server {
  respond = λ h r. if r.method == "GET" then ok up else ok good;
  decode_deployment_config = λ s. if s == "up" then ok running_config else ok (idled_config "now");
}

-- a cluster that has room
abbrev roomy : InfoList
roomy = record one_tenant {
  items =
      (record tenant_data {
        namespaces =
            (record {
              cluster_url = "https://api/";
              name = "alice-jenkins";
              state = "created";
              type = "jenkins";
              cluster_capacity_exhausted = false;
            })
            ∷ [];
      })
      ∷ [];
}

abbrev wired : Server → Time → Wiring
wired srv t = record {
  openshift = srv;
  tenant_world = record tenant_world { unmarshal = λ s. ok roomy };
  tenant_service = tenant_service;
  features = λ id. ok true;
  outside = λ h. at t;
  now = λ h. t;
  sprintf = λ s. s;
}

abbrev to_idle : Wiring
to_idle = wired busy late

abbrev pub to_wake : Wiring
to_wake = wired server soon

alice-WantsIdle : WantsIdle (connected to_idle) (machine_of alice)
unfolding connected eval eval_one empty state
alice-WantsIdle = record { decides = (refl, refl, refl); room = omega arith; up = omega arith }

-- Alice's idler in a system, and the set of disabled users with her
abbrev alice_system : System idlers set
alice_system = record (initial idlers set set.new) {
  controller = record {
    user_idlers = idlers.set idlers.new "alice" (routine_of alice);
    unknown_users = [];
    disabled_users = set.new;
  };
}

abbrev alice_disabled : set.Map
alice_disabled = set.set set.new "alice" true

disabled_scaled_down_example :
    let before = before_idle to_idle (machine_of alice) in
    let endpoint =
      λ (at : String). endpoint_patch "https://api" "token" "alice-jenkins" "jenkins" at in
    let config_of =
      λ (at : String). config_patch "https://api" "token" "alice-jenkins" "jenkins" at in
    (q : System idlers set) × (run idlers set config
        (λ n. connected to_idle)
        alice_system
        (users_changed alice_disabled ∷ idler_event "alice" Loop.timer ∷ [])
      ≡ some q)
    × (t : Routine) × (idlers.get q.controller.user_idlers "alice" ≡ some t)
    × (StringSet.has set q.controller.disabled_users "alice" ≡ true)
    × OnOk (busy.now_text before) (λ at.
      (traffic to_idle t.machine.calls ≡ config_of at ∷ endpoint at ∷ before)
      × OnOk (busy.respond (endpoint at ∷ before) (config_of at)) (λ resp.
        (resp.status_code ≡ 200)
        × OnOk resp.body
            (λ b. OnOk (busy.decode_deployment_config b) (λ dc. dc.spec.replicas ≡ pos 0))))
unfolding connected eval eval_one empty state check_idle idle initial assoc_map StringSet.has
disabled_scaled_down_example =
    disabled_scaled_down idlers set config (λ n. to_idle) alice_system "alice" alice_disabled
      (routine_of alice) refl refl refl refl alice-WantsIdle refl

alice-WantsUnIdle : WantsUnIdle (connected to_wake) (machine_of alice)
unfolding connected eval eval_one empty state reached_max_capacity get_tenant_info_by_namespace
alice-WantsUnIdle = record {
  decides = (refl, refl, refl);
  room = omega arith;
  down = refl;
  capacity = refl;
}

check_scales_up_example :
    (after_check to_wake (machine_of alice)
      ≡ scale_put "https://api" "token" "alice-jenkins" "jenkins"
        ∷ before_un_idle to_wake (machine_of alice))
    × ((good.status_code ≡ 200) × ((one_replica "alice-jenkins" "jenkins").replicas ≡ pos 1))
unfolding connected eval eval_one empty state check_idle reached_max_capacity
    get_tenant_info_by_namespace un_idle
check_scales_up_example = check_scales_up to_wake (machine_of alice) alice-WantsUnIdle refl

-- ===== src/Tests/Handling.antt =====
-- Runs of the controller, of the tenant client and of the REST API.
use fabric8_jenkins_idler.Common.{
  String, trim_space, true, false, [], ◌∷◌, none, Result, ok, ◌≡◌, ◌≢◌, ◌⊎◌, refl, arith,
  if◌then◌else◌,
}
use fabric8_jenkins_idler.ConcurrentMap.{is_some, assoc_map}
use fabric8_jenkins_idler.Model.{pod_idled, new_build}
use fabric8_jenkins_idler.Model.StringSet
use fabric8_jenkins_idler.Util.{contains_string}
use fabric8_jenkins_idler.Tenant.{InfoList}
use fabric8_jenkins_idler.UserIdler.{Services}
use fabric8_jenkins_idler.Controller.{
  Controller, returned, sends, handle_build, handle_deployment_config, create_if_not_exist,
}
use fabric8_jenkins_idler.Controller.Builds.{handle_build_known, recorded, clashes, changes}
use fabric8_jenkins_idler.Controller.Deployments.{handle_deployment_config_known, Availability}
use fabric8_jenkins_idler.Controller.Users.{
  create_if_not_exist_cases, empty_answer_is_final, FromTenant, with_unknown,
}
use fabric8_jenkins_idler.Controller.Safety.{
  NoPanic, handle_build-NoPanic, handle_deployment_config-NoPanic,
}
use fabric8_jenkins_idler.Cluster.{get_token}
use fabric8_jenkins_idler.Api.{HttpRequest, un_idle, UserStatus}
use fabric8_jenkins_idler.Api.UnIdling.{ns, IsKnown, UpOrAsked, un_idle_ok}
use fabric8_jenkins_idler.Tests.Data.{
  alice, soon, answering, routine_of, config, idlers, set, tenants, one_tenant, no_tenant, build_1,
  build_event_1, dc_event_1, cluster_1,
}

abbrev empty_controller : Controller idlers set
empty_controller = record { user_idlers = idlers.new; unknown_users = []; disabled_users = set.new }

-- a controller with Alice's idler
abbrev with_alice : Controller idlers set
with_alice = record empty_controller {
  user_idlers = idlers.set idlers.new "alice" (routine_of alice);
}

handle_build_known_example : handle_build idlers set config tenants build_event_1 with_alice ≡ (
  if StringSet.has set with_alice.disabled_users "alice"
      then returned none
      else if clashes (recorded alice build_1)
      then sends "alice" (record (recorded alice build_1) { active_build = new_build })
      else if changes alice build_1
      then sends "alice" (recorded alice build_1)
      else returned none,
  with_alice,
)
unfolding assoc_map
handle_build_known_example =
    handle_build_known idlers set config tenants with_alice build_event_1 (routine_of alice) refl

handle_deployment_config_known_example :
    ((handle_deployment_config idlers set config tenants dc_event_1 with_alice).1 ≡ with_alice)
    × (((StringSet.has set with_alice.disabled_users "alice" ≡ true)
          × ((handle_deployment_config idlers set config tenants dc_event_1 with_alice).0
              ≡ returned none))
        ⊎ ((StringSet.has set with_alice.disabled_users "alice" ≡ false)
            × Availability "alice" alice dc_event_1.object.status.conditions
                (handle_deployment_config idlers set config tenants dc_event_1 with_alice).0))
unfolding assoc_map
handle_deployment_config_known_example =
    handle_deployment_config_known idlers set config tenants with_alice dc_event_1 "alice"
      (routine_of alice) refl refl

create_if_not_exist_cases_example :
    let r = create_if_not_exist idlers set config tenants "bob" empty_controller in
    ((is_some (idlers.get empty_controller.user_idlers "bob") ≡ true)
      × (r ≡ (ok true, empty_controller)))
    ⊎ ((is_some (idlers.get empty_controller.user_idlers "bob") ≡ false)
        × (contains_string [] "bob" ≡ true)
        × (r ≡ (ok false, empty_controller)))
    ⊎ ((is_some (idlers.get empty_controller.user_idlers "bob") ≡ false)
        × (contains_string [] "bob" ≡ false)
        × FromTenant idlers set config empty_controller "bob" (ok one_tenant) r)
create_if_not_exist_cases_example =
    create_if_not_exist_cases idlers set config tenants "bob" empty_controller

handle_build-NoPanic_example :
    NoPanic (handle_build idlers set config tenants build_event_1 empty_controller).0
handle_build-NoPanic_example =
    handle_build-NoPanic idlers set config tenants build_event_1 empty_controller

handle_deployment_config-NoPanic_example :
    NoPanic (handle_deployment_config idlers set config tenants dc_event_1 empty_controller).0
handle_deployment_config-NoPanic_example =
    handle_deployment_config-NoPanic idlers set config tenants dc_event_1 "alice" empty_controller
      refl

abbrev down : String → String → Result InfoList
down api name = ok no_tenant

empty_answer_is_final_example :
    (create_if_not_exist idlers set config down "bob" empty_controller
      ≡ (ok false, with_unknown idlers set config empty_controller "bob"))
    × (create_if_not_exist idlers set config tenants "bob"
          (with_unknown idlers set config empty_controller "bob")
        ≡ (ok false, with_unknown idlers set config empty_controller "bob"))
unfolding assoc_map contains_string
empty_answer_is_final_example =
    empty_answer_is_final idlers set config down tenants "bob" empty_controller no_tenant refl refl
      refl refl (omega arith)

abbrev request : HttpRequest
request = record { openshift_api_url = "https://api" ∷ []; namespace = "alice-jenkins" }

abbrev wake : Services
wake = answering soon pod_idled

un_idle_ok_example :
    (ns wake (cluster_1 ∷ []) request [] ≢ "")
    × (url : String) × (token : String) × IsKnown wake (cluster_1 ∷ []) request [] url token
    × UpOrAsked wake
        (cluster_1 ∷ [])
        request
        []
        url
        token
        (un_idle wake (cluster_1 ∷ []) request []).1
unfolding un_idle get_token trim_space
un_idle_ok_example = un_idle_ok wake (cluster_1 ∷ []) request [] refl

abbrev change : UserStatus
change = record { disable = "alice" ∷ "bob" ∷ []; enable = "bob" ∷ [] }

-- ===== src/Controller/Defs.antt =====
-- internal/openshift/controller.go. An idler of the map is the state of its goroutine, which the map's pointers share.
use Prim.Native.String.{len, slice}
use fabric8_jenkins_idler.Common.{
  String, GoError, ◌==◌, ◌<>◌, ◌-◌, ltb, nat_beq, ℤ, pos, ltb_ℤ, Bool, true, false, not, ◌||◌, List,
  [], ◌∷◌, Option, none, some, Result, ok, err, parse_bool, format_int, if◌then◌else◌,
}
use fabric8_jenkins_idler.ConcurrentMap.{ConcurrentMap, is_some}
use fabric8_jenkins_idler.Model.{
  User, new_user, new_build, Build, Object, Condition, DeploymentConfig, DcObject, get_by_type,
  phases,
}
use fabric8_jenkins_idler.Model.StringSet
use fabric8_jenkins_idler.Tenant.{InfoList, InfoData}
use fabric8_jenkins_idler.Controller.UserIdlerMap
use fabric8_jenkins_idler.Controller.UnknownUsersMap
use fabric8_jenkins_idler.UserIdler.{new_user_idler, jenkins_namespace_suffix}
use fabric8_jenkins_idler.UserIdler.Loop.{Routine, start}

abbrev pub available_cond : String
available_cond = "Available"

-- the controller's fields that no handler changes, and the settings that it hands to a user idler
pub record Config : Type 0 where
  pub openshift_url : String
  pub os_bearer_token : String
  pub max_retries : ℤ
  pub idle_after : ℤ
  pub idle_long_build : ℤ

-- What a handler did: it returned an error or nil, it sends a user to the user idler of a namespace
-- and returns nil, or it panicked.
pub data Outcome : Type 0 where
  returned : Option GoError → Outcome
  sends : String → User → Outcome
  panicked : Outcome

-- HandleBuild's updates of its copy of the user, with `evalConditions`
unfoldable pub is_active : Build → Bool
unfolding phases
is_active b = nat_beq (phases b.status.phase) 1

abbrev pub differs : Build → Build → Bool
differs old new =
    not (old.status.phase == new.status.phase) || not (old.metadata.name == new.metadata.name)

unfoldable pub record_build : User → Build → User × Bool
unfolding is_active
record_build u b =
    if is_active b
    then (if differs u.active_build b then (record u { active_build = b }, true) else (u, false))
    else (if differs u.done_build b then (record u { done_build = b }, true) else (u, false))

-- the active build is dropped once it is the done build
unfoldable pub clean_active : User × Bool → User × Bool
clean_active (u, evaluate) =
    if u.active_build.metadata.name == u.done_build.metadata.name
    then (record u { active_build = new_build }, true)
    else (u, evaluate)

-- the early return for a user of `disabledUsers`
unfoldable pub unless_disabled : Bool → Outcome → Outcome
unless_disabled true o = returned none
unless_disabled false o = o

-- `if evalConditions { sendUserToIdler(…) }; return nil`
unfoldable pub send_if : Bool → String → User → Outcome
send_if true ns u = sends ns u
send_if false ns u = returned none

-- `ns[:len(ns)-len("-jenkins")]`, which panics where the length would be negative
unfoldable pub tenant_namespace : String → Option String
tenant_namespace ns =
    if ltb (len ns) (len jenkins_namespace_suffix)
    then none
    else some (slice ns 0 (len ns - len jenkins_namespace_suffix))

-- the rest of HandleDeploymentConfig, from the parsed status of the condition
unfoldable pub dc_outcome : String → User → Condition → Result Bool → Outcome
dc_outcome ns u c (err e) = returned (some e)
dc_outcome ns u c (ok true) = sends ns (record u { jenkins_last_update = c.last_update_time })
dc_outcome ns u c (ok false) = sends ns u

unfoldable pub available_outcome : String → User → Result Condition → Outcome
available_outcome ns u (err e) = returned none
available_outcome ns u (ok c) = dc_outcome ns u c (parse_bool c.status)

module _ (idlers : ConcurrentMap Routine) (set : ConcurrentMap Bool) where
  -- The controller's state. `unknown_users` lists the keys of UnknownUsersMap, whose values are nil.
  pub record Controller : Type 0 where
    pub user_idlers : idlers.Map
    pub unknown_users : List String
    pub disabled_users : set.Map

  module _ (c : Config) (tenant : String → String → Result InfoList) where
    -- `ti.Data` of an answer: the namespace is unknown, or gets a user idler for the first tenant
    unfoldable pub create_for : String → Controller → List InfoData → Result Bool × Controller
    create_for ns s [] =
        (ok false, record s { unknown_users = UnknownUsersMap.store s.unknown_users ns })
    create_for ns s (d ∷ _) = (
      ok true,
      record s {
        user_idlers = UserIdlerMap.store idlers s.user_idlers ns (
            start (
              new_user_idler (new_user d.id ns) c.openshift_url c.os_bearer_token c.max_retries
                c.idle_after c.idle_long_build));
      },
    )

    -- the answer of the tenant service for a namespace that is not known yet
    unfoldable pub create_from : String → Controller → Result InfoList → Result Bool × Controller
    create_from ns s (err e) = (err e, s)
    create_from ns s (ok ti) =
        if ltb_ℤ (pos 1) ti.total_count
        then (
          err (
              "could not add new user - Tenant service returned multiple items: "
              <> format_int ti.total_count),
          s,
        )
        else create_for ns s ti.items

    -- createIfNotExist
    unfoldable pub create_if_not_exist : String → Controller → Result Bool × Controller
    unfolding create_from create_for
    create_if_not_exist ns s =
        if is_some (UserIdlerMap.load idlers s.user_idlers ns)
        then (ok true, s)
        else if UnknownUsersMap.load s.unknown_users ns
        then (ok false, s)
        else create_from ns s (tenant c.openshift_url ns)

    -- the rest of HandleBuild, from userIdlerForNamespace; a nil idler would be dereferenced
    unfoldable pub build_outcome : Build → String → Controller → Option Routine → Outcome
    unfolding record_build clean_active
    build_outcome b ns s none = panicked
    build_outcome b ns s (some r) =
        let u = r.machine.user in
        let (u', evaluate) = clean_active (record_build u b) in
        unless_disabled (StringSet.has set s.disabled_users u.name) (send_if evaluate ns u')

    -- the rest of HandleDeploymentConfig
    unfoldable pub dc_outcome_for :
        DeploymentConfig → String → Controller → Option Routine → Outcome
    dc_outcome_for dc ns s none = panicked
    dc_outcome_for dc ns s (some r) =
        let u = r.machine.user in
        unless_disabled (StringSet.has set s.disabled_users u.name)
          (available_outcome ns u (get_by_type dc.status available_cond))

    -- the two early returns behind `ok, err := c.createIfNotExist(ns)`, and then userIdlerForNamespace
    unfoldable pub go_on :
        String
        → (String → Controller → Option Routine → Outcome)
        → Result Bool × Controller
        → Outcome × Controller
    go_on ns next (err e, s) = (returned (some e), s)
    go_on ns next (ok false, s) = (returned none, s)
    go_on ns next (ok true, s) = (next ns s (UserIdlerMap.load idlers s.user_idlers ns), s)

    unfoldable pub when_known :
        String
        → (String → Controller → Option Routine → Outcome)
        → Controller
        → Outcome × Controller
    unfolding go_on
    when_known ns next s = go_on ns next (create_if_not_exist ns s)

    unfoldable pub handle_build : Object → Controller → Outcome × Controller
    unfolding when_known build_outcome
    handle_build o = when_known o.object.metadata.namespace (build_outcome o.object)

    -- HandleDeploymentConfig behind the slice of the namespace
    unfoldable pub handle_dc_of : DcObject → Option String → Controller → Outcome × Controller
    unfolding when_known dc_outcome_for
    handle_dc_of o none s = (panicked, s)
    handle_dc_of o (some ns) s = when_known ns (dc_outcome_for o.object) s

    unfoldable pub handle_deployment_config : DcObject → Controller → Outcome × Controller
    handle_deployment_config o s = handle_dc_of o (tenant_namespace o.object.metadata.namespace) s

-- ===== src/Tests/Waking.antt =====
-- A build event that wakes an idled Jenkins, up to the request that OpenShift gets.
use fabric8_jenkins_idler.Common.{
  mul64, ◌*◌, second, inr, arith, pos, String, [], ◌∷◌, some, ◌≡◌, refl,
}
use fabric8_jenkins_idler.ConcurrentMap.{assoc_map}
use fabric8_jenkins_idler.Model.{User, Build, Object, no_metadata, pod_idled}
use fabric8_jenkins_idler.Model.StringSet
use fabric8_jenkins_idler.UserIdler.{Services, Machine, new_user_idler}
use fabric8_jenkins_idler.UserIdler.Decision.{after_capacity}
use fabric8_jenkins_idler.UserIdler.Watched.{IsUnIdleTime}
use fabric8_jenkins_idler.UserIdler.Loop.{Routine}
use fabric8_jenkins_idler.UserIdler.Loop
use fabric8_jenkins_idler.Controller.Builds.{changes, clashes, recorded, with_build}
use fabric8_jenkins_idler.Controller.{is_active}
use fabric8_jenkins_idler.Controller.Events.{
  System, build_event, delivered, idler_event, builds, initial, run,
}
use fabric8_jenkins_idler.Tenant.{reached_max_capacity, get_tenant_info_by_namespace}
use fabric8_jenkins_idler.OpenshiftClient.{state}
use fabric8_jenkins_idler.Program.Wiring.{traffic, connected}
use fabric8_jenkins_idler.Program.Woken.{scale_for, build_scales_up}
use fabric8_jenkins_idler.Tests.Scaled.{to_wake}
use fabric8_jenkins_idler.Tests.Data.{alice, soon, answering, config, idlers, set, tenants, build_1}

-- a second build of Alice, which runs
abbrev build_2 : Build
build_2 = record build_1 {
  metadata = record no_metadata { name = "build-2"; namespace = "alice" };
  status = record { phase = "Running"; start_timestamp = 20 * second; completion_timestamp = 0 };
}

abbrev pub build_event_2 : Object
build_event_2 = record { type = "MODIFIED"; object = build_2 }

-- Alice's idler as NewUserIdler makes it, with her earlier builds
abbrev pub waiting : Routine
waiting = Loop.start (new_user_idler alice "https://api" "token" (pos 3) (pos 45) (pos 3))

abbrev pub open_system : System idlers set
open_system = record (initial idlers set set.new) {
  controller = record {
    user_idlers = idlers.set idlers.new "alice" waiting;
    unknown_users = [];
    disabled_users = set.new;
  };
}

abbrev pub idled_world : String → Services
idled_world name = answering soon pod_idled

abbrev alice_2 : User
alice_2 = record alice { active_build = build_2 }

-- the machine of Alice's idler when it has received her second build
abbrev woken_machine : Machine
woken_machine = record waiting.machine { idler = record waiting.machine.idler { user = alice_2 } }

alice-IsUnIdleTime : IsUnIdleTime (pos 45) (pos 3) (connected to_wake) woken_machine
unfolding Loop.start new_user_idler mul64 connected state reached_max_capacity
    get_tenant_info_by_namespace
alice-IsUnIdleTime = record {
  enabled = refl;
  needed = inr ((λ e. absurd (omega arith)), omega arith);
  room = omega arith;
  down = refl;
  capacity = refl;
}

build_scales_up_example :
    (q : System idlers set) × (run idlers set config
        (λ n. connected to_wake)
        open_system
        (build_event tenants build_event_2
          ∷ delivered builds
          ∷ idler_event "alice" Loop.receive
          ∷ [])
      ≡ some q)
    × (t : Routine) × (idlers.get q.controller.user_idlers "alice" ≡ some t)
    × (traffic to_wake t.machine.calls
        ≡ scale_for woken_machine
          ∷ traffic to_wake (after_capacity (connected to_wake) woken_machine))
unfolding initial assoc_map Loop.start new_user_idler recorded changes clashes StringSet.has
    with_build is_active
build_scales_up_example =
    build_scales_up idlers set config (λ n. to_wake) open_system tenants build_event_2 waiting
      (pos 45) (pos 3) refl refl refl refl refl refl refl refl alice-IsUnIdleTime refl

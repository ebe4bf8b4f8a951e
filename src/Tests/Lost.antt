-- ===== src/Tests/Lost.antt =====
-- Two build events in a row for Alice, before her user idler has received a user.
use fabric8_jenkins_idler.Common.{[], some, ◌≡◌, ◌≢◌, refl}
use fabric8_jenkins_idler.ConcurrentMap.{assoc_map}
use fabric8_jenkins_idler.Model.{Object, no_metadata}
use fabric8_jenkins_idler.Model.StringSet
use fabric8_jenkins_idler.UserIdler.{new_user_idler}
use fabric8_jenkins_idler.UserIdler.Loop.{Routine}
use fabric8_jenkins_idler.UserIdler.Loop
use fabric8_jenkins_idler.Controller.Builds.{changes, clashes, recorded, with_build}
use fabric8_jenkins_idler.Controller.{is_active}
use fabric8_jenkins_idler.Controller.Events.{System, initial, run}
use fabric8_jenkins_idler.Controller.Events.Steps.{Recorded}
use fabric8_jenkins_idler.Controller.Events.Lost.{first_build_lost, two_builds}
use fabric8_jenkins_idler.Tests.Data.{config, idlers, set, tenants, build_1}
use fabric8_jenkins_idler.Tests.Waking.{build_event_2, waiting, open_system, idled_world}

-- a third build of Alice, which is complete
abbrev build_event_3 : Object
build_event_3 = record {
  type = "MODIFIED";
  object = record build_1 {
    metadata = record no_metadata { name = "build-3"; namespace = "alice" };
  };
}

running-Recorded :
    Recorded idlers set config idled_world open_system "alice" open_system.controller.user_idlers
      waiting build_event_2
unfolding initial assoc_map Loop.start new_user_idler recorded changes clashes StringSet.has
    with_build is_active
running-Recorded = record { here = refl; known = refl; enabled = refl; new = refl; apart = refl }

complete-Recorded :
    Recorded idlers set config idled_world open_system "alice" open_system.controller.user_idlers
      waiting build_event_3
unfolding initial assoc_map Loop.start new_user_idler recorded changes clashes StringSet.has
    with_build is_active
complete-Recorded = record { here = refl; known = refl; enabled = refl; new = refl; apart = refl }

first_build_lost_example :
    (q : System idlers set) × (run idlers set config idled_world open_system (
        two_builds idlers set config idled_world open_system "alice" tenants build_event_2
          build_event_3)
      ≡ some q)
    × (t : Routine) × (idlers.get q.controller.user_idlers "alice" ≡ some t)
    × (t.queue ≡ [])
    × (t.machine.user.done_build ≡ build_event_3.object)
    × (t.machine.user.active_build ≡ waiting.machine.user.active_build)
    × (waiting.machine.user.active_build ≢ build_event_2.object)
unfolding initial assoc_map Loop.start new_user_idler is_active
first_build_lost_example =
    first_build_lost idlers set config idled_world open_system "alice" tenants waiting build_event_2
      build_event_3 refl refl refl running-Recorded complete-Recorded refl refl

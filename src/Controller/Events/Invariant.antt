-- ===== src/Controller/Events/Invariant.antt =====
-- The separation of active and done builds in every run of the system.
use fabric8_jenkins_idler.Common.{String, Bool, List, some, ◌≡◌}
use fabric8_jenkins_idler.ConcurrentMap.{ConcurrentMap}
use fabric8_jenkins_idler.UserIdler.{Services}
use fabric8_jenkins_idler.UserIdler.Loop.{Routine}
use fabric8_jenkins_idler.Controller.Defs.{Config}
use fabric8_jenkins_idler.Controller.Events.{System, Event, run, initial}
use fabric8_jenkins_idler.Controller.Events.Running.{run-AllKept}
use fabric8_jenkins_idler.Controller.Events.Separation.{
  separation, AllSeparated, AllKept-AllSeparated, events-IsAllowed,
}

module _ (idlers : ConcurrentMap Routine) (set : ConcurrentMap Bool) (c : Config)
    (services : String → Services) where
  -- Whatever the streams, the tenant service, the user idlers and the scheduler do, from the
  -- controller's start on: in each record that a user idler holds, that waits in a channel or that
  -- is being sent, an active build with the name of the done build is the fresh, nameless one.
  pub run-AllSeparated :
      (disabled : set.Map) (es : List (Event idlers set)) (s : System idlers set)
      → run idlers set c services (initial idlers set disabled) es ≡ some s
      → AllSeparated idlers set s
  run-AllSeparated disabled es s h = AllKept-AllSeparated idlers set s (
      run-AllKept idlers set (separation set) c services disabled es s tt
        (events-IsAllowed idlers set es) h)

-- ===== src/Tests/Events.antt =====
-- Runs of the controller with its user idlers.
use fabric8_jenkins_idler.Common.{String, List, [], ◌∷◌, ok, ◌+◌, ◌≤◌, ◌≡◌, refl}
use fabric8_jenkins_idler.ConcurrentMap.{assoc_map}
use fabric8_jenkins_idler.Model.{pod_running, new_user}
use fabric8_jenkins_idler.Model.StringSet
use fabric8_jenkins_idler.Util.{contains_string}
use fabric8_jenkins_idler.UserIdler.{Services, new_user_idler}
use fabric8_jenkins_idler.UserIdler.Loop.{Routine}
use fabric8_jenkins_idler.UserIdler.Loop
use fabric8_jenkins_idler.Controller.{unless_disabled, send_if, handle_build, create_if_not_exist}
use fabric8_jenkins_idler.Controller.Events.{
  System, Event, build_event, delivered, idler_event, builds, initial, run, step,
}
use fabric8_jenkins_idler.Controller.Events.Separation.{AllSeparated}
use fabric8_jenkins_idler.Controller.Events.Disabled.{
  with_disabled, sends_ended, disabled_gets_no_more,
}
use fabric8_jenkins_idler.Controller.Events.Flight.{in_flight}
use fabric8_jenkins_idler.Controller.Events.Invariant.{run-AllSeparated}
use fabric8_jenkins_idler.Api.{UserStatus, set_user_idler_status}
use fabric8_jenkins_idler.Tests.Data.{
  value_of, late, answering, config, idlers, set, tenants, build_event_1,
}

abbrev world : String → Services
world name = answering late pod_running

-- the build's event, its delivery, and an end of the goroutine
abbrev events : List (Event idlers set)
events = build_event tenants build_event_1 ∷ delivered builds ∷ idler_event "alice" Loop.done ∷ []

abbrev after_events : System idlers set
after_events =
    value_of (initial idlers set set.new)
      (run idlers set config world (initial idlers set set.new) events)

run-AllSeparated_example : AllSeparated idlers set after_events
unfolding run initial assoc_map handle_build create_if_not_exist contains_string unless_disabled
    StringSet.has send_if Loop.start Loop.step new_user_idler new_user
run-AllSeparated_example = run-AllSeparated idlers set config world set.new events after_events refl

abbrev without_alice : UserStatus
without_alice = record { disable = "alice" ∷ []; enable = "bob" ∷ [] }

-- a build of Alice is handled, and its user is being sent, when the API disables her
abbrev sending_alice : System idlers set
sending_alice = value_of (initial idlers set set.new) (
    run idlers set config world (initial idlers set set.new)
      (build_event tenants build_event_1 ∷ []))

abbrev closed : System idlers set
closed =
    with_disabled idlers set "alice" (set_user_idler_status set (ok without_alice) set.new).1
      sending_alice

-- the user is delivered, and another build of hers is handled
abbrev ignored : List (Event idlers set)
ignored = delivered builds ∷ build_event tenants build_event_1 ∷ []

abbrev after_ignored : System idlers set
after_ignored = value_of closed (run idlers set config world closed ignored)

disabled_gets_no_more_example :
    (sends_ended idlers set "alice" config world closed ignored
        + in_flight idlers set "alice" after_ignored
      ≡ in_flight idlers set "alice" sending_alice)
    × (in_flight idlers set "alice" sending_alice ≤ 2)
unfolding run step initial assoc_map handle_build create_if_not_exist contains_string
    unless_disabled StringSet.has send_if Loop.start Loop.step new_user_idler new_user
    set_user_idler_status
disabled_gets_no_more_example =
    disabled_gets_no_more idlers set "alice" config world set.new without_alice
      (build_event tenants build_event_1 ∷ []) ignored sending_alice after_ignored refl refl refl
      (tt, (tt, tt)) refl

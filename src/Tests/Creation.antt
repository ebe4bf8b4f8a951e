-- ===== src/Tests/Creation.antt =====
-- Runs of createIfNotExist in steps, with the user idler that it starts.
use fabric8_jenkins_idler.Common.{
  List, String, Bool, Result, ◌⊎◌, ◌<◌, ◌≤◌, ◌≡◌, ◌≢◌, ◌↔◌, none, some, ok, true, false, [], ◌∷◌,
  refl, arith,
}
use fabric8_jenkins_idler.ConcurrentMap.{assoc_map, is_some}
use fabric8_jenkins_idler.Model.{pod_running}
use fabric8_jenkins_idler.Util.{contains_string}
use fabric8_jenkins_idler.UserIdler.{new_user_idler, check_idle, Services, send_idle, service_ref}
use fabric8_jenkins_idler.UserIdler.Decision.{after_state}
use fabric8_jenkins_idler.UserIdler.Loop.{Routine, start}
use fabric8_jenkins_idler.UserIdler.Loop
use fabric8_jenkins_idler.Controller.{Controller}
use fabric8_jenkins_idler.Controller.Users.{with_idler}
use fabric8_jenkins_idler.Controller.Creation.{Shared, Pair, ended, at_idlers, at_rest, count, run}
use fabric8_jenkins_idler.Controller.Creation.Alone.{alone, alone_cases}
use fabric8_jenkins_idler.Controller.Users.{FromTenant}
use fabric8_jenkins_idler.Controller.Creation.Bounded.{run-started_le}
use fabric8_jenkins_idler.Controller.Creation.Overlap.{overlapping, overlap_starts_two}
use fabric8_jenkins_idler.Controller.Creation.Stray.{new_routine, MayIdle, timer_idles_iff}
use fabric8_jenkins_idler.Tests.Data.{
  late, answering, config, idlers, set, tenants, one_tenant, tenant_data,
}

abbrev nobody : Controller idlers set
nobody = record { user_idlers = idlers.new; unknown_users = []; disabled_users = set.new }

abbrev both_started : Pair idlers set
both_started = record {
  shared = record {
    controller =
        with_idler idlers set config (with_idler idlers set config nobody "alice" tenant_data)
          "alice" tenant_data;
    started = "alice" ∷ "alice" ∷ [];
  };
  building = ended (ok true);
  deploying = ended (ok true);
}

overlap_starts_two_example :
    run idlers set config (at_rest idlers set nobody) (overlapping "alice" one_tenant one_tenant)
    ≡ some both_started
unfolding assoc_map contains_string
overlap_starts_two_example =
    overlap_starts_two idlers set config "alice" nobody one_tenant one_tenant tenant_data
      tenant_data [] [] refl refl (omega arith) refl (omega arith) refl

run-started_le_example :
    (count "alice" ("alice" ∷ "alice" ∷ []) ≤ 2)
    × (0 < count "alice" ("alice" ∷ "alice" ∷ [])
        → idlers.get both_started.shared.controller.user_idlers "alice" ≢ none)
run-started_le_example =
    run-started_le idlers set config nobody (overlapping "alice" one_tenant one_tenant) both_started
      "alice" overlap_starts_two_example

abbrev nothing_started : Shared idlers set
nothing_started = record { controller = nobody; started = [] }

alone_cases_example :
    let known = is_some (idlers.get nobody.user_idlers "alice") in
    let unknown = contains_string nobody.unknown_users "alice" in
    (r : Result Bool) × (t : Controller idlers set) × (started : List String) × (alone idlers set
        config 5
        (tenants "https://api" "alice")
        (at_idlers "alice")
        nothing_started
      ≡ (ended r, record nothing_started { controller = t; started = started }))
    × (((known ≡ true) × (r ≡ ok true) × (t ≡ nobody) × (started ≡ []))
        ⊎ ((known ≡ false) × (unknown ≡ true) × (r ≡ ok false) × (t ≡ nobody) × (started ≡ []))
        ⊎ ((known ≡ false)
            × (unknown ≡ false)
            × FromTenant idlers set config nobody "alice" (tenants "https://api" "alice") (r, t)
            × (((r ≡ ok true) × (started ≡ "alice" ∷ [])) ⊎ ((r ≢ ok true) × (started ≡ [])))))
alone_cases_example = alone_cases idlers set config "alice" nothing_started tenants

abbrev running_late : Services
running_late = answering late pod_running

abbrev stray : Routine
stray = new_routine idlers set config running_late "alice" tenant_data

abbrev after_timer : Routine
after_timer = record stray { machine = (check_idle running_late stray.machine).1; armed = false }

stray_may_idle : MayIdle idlers set config running_late "alice" tenant_data
unfolding start new_user_idler
stray_may_idle = (refl, omega arith, omega arith)

timer_idles_iff_example :
    (after_timer.machine.calls
      ≡ send_idle (service_ref stray.machine.idler "jenkins")
        ∷ after_state running_late stray.machine)
    ↔ MayIdle idlers set config running_late "alice" tenant_data
unfolding Loop.step start
timer_idles_iff_example =
    timer_idles_iff idlers set config running_late "alice" tenant_data after_timer refl

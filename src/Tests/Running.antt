-- ===== src/Tests/Running.antt =====
-- Runs of the goroutine of a user idler, and a check whose attempts are used up.
use fabric8_jenkins_idler.Common.{
  ◌*◌, suc, ◌+◌, ◌≤◌, pos, true, false, some, List, [], ◌∷◌, ok, ◌≡◌, refl, ◌↔◌, arith,
}
use fabric8_jenkins_idler.Model.{pod_running}
use fabric8_jenkins_idler.Util.{empty}
use fabric8_jenkins_idler.Condition.{idle, eval, eval_one}
use fabric8_jenkins_idler.UserIdler.{
  check_idle, reset_counters, service_ref, send_idle, send_un_idle, Services, Machine,
  new_user_idler,
}
use fabric8_jenkins_idler.UserIdler.Requests.{idle_requests, un_idle_requests}
use fabric8_jenkins_idler.UserIdler.Decision.{
  Decides, after_enabled, after_state, after_capacity, check_idle_capped,
}
use fabric8_jenkins_idler.UserIdler.Watched.{IsIdleTime, IsUnIdleTime, watched_exactly}
use fabric8_jenkins_idler.UserIdler.Loop.{Routine, start, run, send, receive, timer, ticker, Event}
use fabric8_jenkins_idler.UserIdler.Loop.Laws.{
  timers, receives, armed_once, tickers, timers-le-receives, run_bounded, IsWithin,
}
use fabric8_jenkins_idler.UserIdler.Loop.Limiter.{
  Limiter, Stands, allow_all, trace, full_budget, run_refines_limiter,
}
use fabric8_jenkins_idler.UserIdler.Loop.Order.{IsReceived, run-IsReceived}
use fabric8_jenkins_idler.UserIdler.Loop.Progress.{renewed, idles_after_tick, stopped_for_good}
use fabric8_jenkins_idler.Tests.Data.{value_of, alice, late, answering, machine_of, routine_of}

abbrev idle_now : Services
idle_now = answering late pod_running

-- the machine with no attempts left
abbrev tired : Machine
tired = record (machine_of alice) { idler = record (machine_of alice).idler { idle_attempts = 3 } }

tired-Decides : Decides idle_now tired idle
unfolding eval eval_one empty
tired-Decides = (refl, refl, refl)

check_idle_capped_example :
    ((check_idle idle_now tired).0 ≡ ok tt)
    × ((check_idle idle_now tired).1.calls ≡ after_enabled idle_now tired)
    × ((check_idle idle_now tired).1.user.idle_status
        ≡ record { timestamp = late; success = true; reason = "Successfully idled" })
check_idle_capped_example = check_idle_capped idle_now tired tired-Decides (omega arith)

abbrev three : List Event
three = send alice ∷ timer ∷ receive ∷ []

abbrev after_three : Routine
after_three = value_of (routine_of alice) (run idle_now (routine_of alice) three)

timers-le-receives_example : timers three + armed_once after_three.armed ≤ receives three + 1
unfolding run
timers-le-receives_example = timers-le-receives idle_now (routine_of alice) after_three three refl

abbrev begun : Routine
begun = start (new_user_idler alice "https://api" "token" (pos 3) (pos 45) (pos 3))

abbrev after_begun : Routine
after_begun = value_of begun (run idle_now begun three)

abbrev watched_machine : Machine
watched_machine = begun.machine

watched_exactly_example :
    (((check_idle idle_now watched_machine).1.calls
        ≡ send_idle (service_ref watched_machine.idler "jenkins")
          ∷ after_state idle_now watched_machine)
      ↔ IsIdleTime (pos 45) (pos 3) idle_now watched_machine)
    × (((check_idle idle_now watched_machine).1.calls
          ≡ send_un_idle (service_ref watched_machine.idler "jenkins")
            ∷ after_capacity idle_now watched_machine)
        ↔ IsUnIdleTime (pos 45) (pos 3) idle_now watched_machine)
unfolding start new_user_idler
watched_exactly_example = watched_exactly (pos 45) (pos 3) idle_now watched_machine refl

run_refines_limiter_example :
    (b : Limiter) × (allow_all (full_budget 3) (trace idle_now begun three) ≡ some b)
    × Stands after_begun b
unfolding run start new_user_idler
run_refines_limiter_example =
    run_refines_limiter idle_now alice "https://api" "token" (pos 3) (pos 45) (pos 3) after_begun
      three refl

-- alice waits in the channel, twice
abbrev crowded : Routine
crowded = record (routine_of alice) { queue = alice ∷ alice ∷ [] }

abbrev busy_events : List Event
busy_events = receive ∷ send alice ∷ receive ∷ []

abbrev after_busy : Routine
after_busy = value_of crowded (run idle_now crowded busy_events)

run-IsReceived_example : IsReceived crowded after_busy busy_events
unfolding run
run-IsReceived_example = run-IsReceived idle_now crowded after_busy busy_events refl

-- alice waits, and no attempts are left
abbrev tired_routine : Routine
tired_routine = record crowded { machine = tired }

renewed-Decides : Decides idle_now (renewed tired_routine alice) idle
unfolding eval eval_one empty reset_counters
renewed-Decides = (refl, refl, refl)

idles_after_tick_example :
    (q : Routine) × (run idle_now tired_routine (ticker ∷ receive ∷ []) ≡ some q)
    × (q.machine.calls
        ≡ send_idle (service_ref (renewed tired_routine alice).idler "jenkins")
          ∷ after_state idle_now (renewed tired_routine alice))
idles_after_tick_example =
    idles_after_tick idle_now tired_routine alice (alice ∷ []) refl refl (omega arith)
      renewed-Decides (omega arith)

-- the goroutine has ended, and alice waits
abbrev ended : Routine
ended = record crowded { running = false }

abbrev ended_and_sent : Routine
ended_and_sent = record ended { queue = alice ∷ alice ∷ alice ∷ [] }

stopped_for_good_example :
    (ended_and_sent.machine ≡ ended.machine)
    × (ended_and_sent.running ≡ false)
    × (2 + 1 ≡ 3)
    × (1 ≤ 10)
unfolding run
stopped_for_good_example =
    stopped_for_good idle_now ended ended_and_sent (send alice ∷ []) refl (omega arith) refl

run_bounded_example :
    IsWithin after_begun
    × (idle_requests after_begun.machine.calls ≤ 3 * suc (tickers three))
    × (un_idle_requests after_begun.machine.calls ≤ 3 * suc (tickers three))
unfolding run start new_user_idler
run_bounded_example =
    run_bounded idle_now alice "https://api" "token" (pos 3) (pos 45) (pos 3) after_begun three refl

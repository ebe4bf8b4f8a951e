-- ===== src/Tests/Idling.antt =====
-- Runs of the conditions and of the user idler.
use mathlib.Core.List.{Perm, Permᴰ}
use fabric8_jenkins_idler.Common.{err, ◌*◌, ◌≤◌, pos, second, [], ◌∷◌, All, ◌≡◌, ◌↔◌, ◌⊎◌, refl}
use fabric8_jenkins_idler.Model.{pod_idled, pod_running}
use fabric8_jenkins_idler.Condition.{
  build_action, idle, un_idle, user, rank, eval, Condition, Conditions, BuildCondition, DcCondition,
}
use fabric8_jenkins_idler.Condition.Builds.{build_action_exact, IsQuiet}
use fabric8_jenkins_idler.Condition.Combined.{eval_greatest, eval-perm, verdict, Answers, errors_of}
use fabric8_jenkins_idler.UserIdler.{service_ref, send_idle, send_un_idle, check_idle, Services}
use fabric8_jenkins_idler.UserIdler.Requests.{idle_requests, un_idle_requests}
use fabric8_jenkins_idler.UserIdler.Decision.{
  WantsIdle, WantsUnIdle, after_state, after_capacity, check_idle_idles, check_idle_un_idles,
}
use fabric8_jenkins_idler.Tests.Data.{
  alice, soon, late, at, answering, two_conditions, machine_of, idler_of,
}

abbrev slow_build : BuildCondition
slow_build = record { idle_after = pos (60 * second); idle_long_build = pos (60 * second) }

build_action_exact_example :
    ((build_action slow_build late alice ≡ idle) ↔ IsQuiet slow_build late alice)
    × ((build_action slow_build late alice ≡ un_idle) ↔ ¬ IsQuiet slow_build late alice)
build_action_exact_example = build_action_exact slow_build late alice

abbrev slow_dc : DcCondition
slow_dc = record { idle_after = pos (60 * second) }

eval_greatest_example :
    All
      (λ c.
        rank (verdict (at late) (user alice) c).0
        ≤ rank (eval (at late) two_conditions (user alice)).0)
      two_conditions
    × Answers (at late) (user alice) two_conditions (eval (at late) two_conditions (user alice)).0
    × ((eval (at late) two_conditions (user alice)).1
        ≡ errors_of (at late) (user alice) two_conditions)
eval_greatest_example = eval_greatest (at late) two_conditions alice

abbrev swapped : Conditions
swapped = ("dc", Condition.dc slow_dc) ∷ ("build", Condition.build slow_build) ∷ []

two_conditions-Perm : Perm two_conditions swapped
two_conditions-Perm = ∣ Permᴰ.swap refl refl ∣₁

eval-perm_example :
    (eval (at late) two_conditions (user alice)).0 ≡ (eval (at late) swapped (user alice)).0
eval-perm_example = eval-perm (at late) two_conditions swapped (user alice) two_conditions-Perm

abbrev idle_now : Services
idle_now = answering late pod_running

check_idle_idles_example :
    (WantsIdle idle_now (machine_of alice)
      × ((check_idle idle_now (machine_of alice)).1.calls
          ≡ send_idle (service_ref (idler_of alice) "jenkins")
            ∷ after_state idle_now (machine_of alice)))
    ⊎ ((¬ WantsIdle idle_now (machine_of alice))
        × (idle_requests (check_idle idle_now (machine_of alice)).1.calls ≡ 0))
check_idle_idles_example = check_idle_idles idle_now (machine_of alice)

abbrev wake_now : Services
wake_now = answering soon pod_idled

check_idle_un_idles_example :
    (WantsUnIdle wake_now (machine_of alice)
      × ((check_idle wake_now (machine_of alice)).1.calls
          ≡ send_un_idle (service_ref (idler_of alice) "jenkins")
            ∷ after_capacity wake_now (machine_of alice)))
    ⊎ ((¬ WantsUnIdle wake_now (machine_of alice))
        × (un_idle_requests (check_idle wake_now (machine_of alice)).1.calls ≡ 0))
check_idle_un_idles_example = check_idle_un_idles wake_now (machine_of alice)

-- the toggle service does not answer
abbrev broken : Services
broken = record idle_now { is_idler_enabled = λ h id. err "toggles" }

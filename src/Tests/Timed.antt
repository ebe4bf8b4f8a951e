-- ===== src/Tests/Timed.antt =====
-- The loops of Idle and UnIdle with a recorder, for a client whose UnIdle fails.
use fabric8_jenkins_idler.Common.{ℕ, eq_iff, nat_beq, Bool, List, [], ◌∷◌, some, ◌≡◌, refl, arith}
use fabric8_jenkins_idler.Model.{pod_idled}
use fabric8_jenkins_idler.UserIdler.{Call, Services, jenkins_services}
use fabric8_jenkins_idler.Api.{idle_all, un_idle_all}
use fabric8_jenkins_idler.Api.Timed.{idle_timed, un_idle_timed, IsObserved, calls-IsObserved}
use fabric8_jenkins_idler.Tests.Data.{soon, answering, cluster_1}

-- times are whole seconds, and each call takes one
abbrev no_time : ℕ → Bool
no_time n = nat_beq n 0

abbrev one_second : List Call → ℕ
one_second h = 1

abbrev half_broken : Services
half_broken = record (answering soon pod_idled) { un_idle = λ h r. some "offline" }

calls-IsObserved_example :
    let i =
      idle_timed no_time one_second half_broken "https://api" "token" "alice" jenkins_services []
        [] in
    let u =
      un_idle_timed no_time one_second half_broken "https://api" "token" "alice" jenkins_services []
        [] in
    (((i.0, i.1)
        ≡ idle_all half_broken (cluster_1 ∷ []) "https://api" "token" "alice" jenkins_services [])
      × IsObserved no_time one_second i [] [])
    × ((u.0, u.1)
        ≡ un_idle_all half_broken
            (cluster_1 ∷ [])
            "https://api"
            "token"
            "alice"
            jenkins_services
            [])
    × IsObserved no_time one_second u [] []
calls-IsObserved_example =
    calls-IsObserved no_time one_second half_broken (cluster_1 ∷ []) "https://api" "token" "alice"
      jenkins_services [] [] ((λ e. ground (arith, eq_iff "jenkins" "")), _) (λ l. refl)

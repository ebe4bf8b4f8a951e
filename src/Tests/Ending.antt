-- ===== src/Tests/Ending.antt =====
-- A run of the program's goroutines from the start to the end.
use fabric8_jenkins_idler.Common.{true, false, List, [], ◌∷◌, length, All, ◌≡◌, refl}
use fabric8_jenkins_idler.Program.Shutdown.{
  Process, moved, started, Event, sigterm, router_starts, idler_starts, run,
}
use fabric8_jenkins_idler.Program.Shutdown.Counted.{OnMove, IsCounted, run_counts}
use fabric8_jenkins_idler.Program.Shutdown.Ending.{is_end, can_return}
use fabric8_jenkins_idler.Tests.Data.{cluster_1}

abbrev begun : Process
begun = started (cluster_1 ∷ []) false

-- the router and a user idler start, then the process is told to end
abbrev until_signal : List Event
until_signal = router_starts ∷ idler_starts ∷ sigterm ∷ []

abbrev told : Process
told = record {
  cancelled = true;
  counter = 4;
  signal = false;
  watchers = 2;
  starting = 0;
  routers = 1;
  idlers = 1;
  returned = false;
}

run_counts_example : OnMove IsCounted (run begun until_signal)
run_counts_example = run_counts (cluster_1 ∷ []) false until_signal

can_return_example :
    (fs : List Event) × (q : Process) × (run told fs ≡ moved q)
    × (q.returned ≡ true)
    × All (λ e. is_end e ≡ true) fs
    × (length fs ≡ 5)
unfolding run started
can_return_example = can_return (cluster_1 ∷ []) false until_signal told refl refl refl

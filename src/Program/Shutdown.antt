-- ===== src/Program/Shutdown.antt =====
-- cmd/fabric8-jenkins-idler/idler.go: Idler.Run with its wait group and its context, by the goroutines
-- that count in the group: the one for signals, two for each cluster, one for each router
-- (internal/router/router.go) and one for each user idler (internal/idler/user_idler.go).
pub mod Counted
pub mod Ending
use fabric8_jenkins_idler.Common.{
  ℕ, zero, suc, ◌+◌, Bool, true, false, List, [], ◌∷◌, if◌then◌else◌,
}
use fabric8_jenkins_idler.Cluster.{Cluster}

pub record Process : Type 0 where
  -- the context is done
  pub cancelled : Bool
  -- the wait group's counter
  pub counter : ℕ
  -- the goroutine of setupSignalChannel still waits
  pub signal : Bool
  -- the goroutines that run watchDC or watchBC
  pub watchers : ℕ
  -- the goroutines of startWorkers that have not called Router.Start yet
  pub starting : ℕ
  -- the goroutines of Router.Start, and of UserIdler.Run
  pub routers : ℕ
  pub idlers : ℕ
  -- Run has returned, and with it the process
  pub returned : Bool

abbrev pub before_run : Process
before_run = record {
  cancelled = false;
  counter = 0;
  signal = false;
  watchers = 0;
  starting = 0;
  routers = 0;
  idlers = 0;
  returned = false;
}

-- the calls of the wait group and of the context's cancel function
abbrev pub add : ℕ → Process → Process
add n p = record p { counter = p.counter + n }

-- An event cannot happen now, it panics, or it leads on.
pub data Move : Type 0 where
  blocked panicked : Move
  moved : Process → Move

-- Done panics where the counter is zero.
abbrev pub when_done : ℕ → Process → Move
when_done zero p = panicked
when_done (suc n) p = moved (record p { counter = n })

abbrev pub cancel : Process → Process
cancel p = record p { cancelled = true }

unfoldable pub setup_signal_channel : Process → Process
setup_signal_channel p = record (add 1 p) { signal = true }

unfoldable pub watch_openshift_events : List Cluster → Process → Process
watch_openshift_events [] p = p
watch_openshift_events (c ∷ cs) p =
    watch_openshift_events cs (record (add 2 p) { watchers = p.watchers + 2 })

-- startWorkers; its argument is whether there is a profiler
unfoldable pub start_workers : List Cluster → Bool → Process → Process
unfolding watch_openshift_events
start_workers clusters add_profiler p =
    let q = watch_openshift_events clusters p in
    record q { starting = q.starting + (if add_profiler then 2 else 1) }

-- Run, up to its wait
unfoldable pub started : List Cluster → Bool → Process
unfolding setup_signal_channel start_workers
started clusters debug = start_workers clusters debug (setup_signal_channel before_run)

pub data Event : Type 0 where
  -- the signal goroutine receives SIGTERM, or sees that the context is done, and ends
  sigterm signal_ends : Event
  -- a watch returns an error; a router's server returns one
  watch_fails listen_fails : Event
  -- watchDC or watchBC ends
  watcher_ends : Event
  -- Router.Start, and the end of its goroutine
  router_starts router_ends : Event
  -- a handler creates a user idler, and its goroutine ends
  idler_starts idler_ends : Event
  -- Wait and Run return
  run_returns : Event

-- one of `n` goroutines ends, which it does when the context is done: what is left of them is set
abbrev pub one_ends : ℕ → (ℕ → Process → Process) → Process → Move
one_ends zero set p = blocked
one_ends (suc n) set p = if p.cancelled then when_done p.counter (set n p) else blocked

-- the signal goroutine's deferred calls
unfoldable pub signal_step : Bool → Process → Move
signal_step sees p =
    if p.signal
    then (if sees then when_done p.counter (record (cancel p) { signal = false }) else blocked)
    else blocked

unfoldable pub router_start : ℕ → Process → Move
router_start zero p = blocked
router_start (suc n) p = moved (record (add 1 p) { starting = n; routers = p.routers + 1 })

abbrev pub wait : ℕ → Process → Move
wait zero p = moved (record (cancel p) { returned = true })
wait (suc n) p = blocked

-- the event, in a process that has not returned
unfoldable pub live_step : Process → Event → Move
unfolding signal_step router_start
live_step p sigterm = signal_step true p
live_step p signal_ends = signal_step p.cancelled p
live_step p watch_fails = moved (cancel p)
live_step p listen_fails = moved (cancel p)
live_step p watcher_ends = one_ends p.watchers (λ n q. record q { watchers = n }) p
live_step p router_starts = router_start p.starting p
live_step p router_ends = one_ends p.routers (λ n q. record q { routers = n }) p
live_step p idler_starts = moved (record (add 1 p) { idlers = p.idlers + 1 })
live_step p idler_ends = one_ends p.idlers (λ n q. record q { idlers = n }) p
live_step p run_returns = wait p.counter p

unfoldable pub step : Process → Event → Move
unfolding live_step
step p e = if p.returned then blocked else live_step p e

abbrev pub and_then : Move → (Process → Move) → Move
and_then blocked f = blocked
and_then panicked f = panicked
and_then (moved p) f = f p

unfoldable pub run : Process → List Event → Move
unfolding step
run p [] = moved p
run p (e ∷ es) = and_then (step p e) (λ q. run q es)

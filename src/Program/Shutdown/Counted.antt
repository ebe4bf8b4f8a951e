-- ===== src/Program/Shutdown/Counted.antt =====
-- The wait group counts the goroutines that are alive: Done never panics, and Run returns only after
-- all of them, and after the context is done.
use fabric8_jenkins_idler.Common.{
  ℕ, ◌+◌, Bool, true, false, List, [], ◌∷◌, ◌≡◌, ◌⊎◌, refl, subst, subst, arith,
}
use fabric8_jenkins_idler.Cluster.{Cluster}
use fabric8_jenkins_idler.Program.Shutdown.{
  Process, Move, blocked, panicked, moved, watch_openshift_events, start_workers, started,
  setup_signal_channel, Event, sigterm, signal_ends, watch_fails, listen_fails, watcher_ends,
  router_starts, router_ends, idler_starts, idler_ends, run_returns, step, run, and_then,
  before_run,
}

abbrev pub alive_once : Bool → ℕ
alive_once true = 1
alive_once false = 0

-- the goroutines that are alive and in the wait group
abbrev pub alive : Process → ℕ
alive p = alive_once p.signal + p.watchers + p.routers + p.idlers

pub record IsCounted (p : Process) : Type 0 where
  pub counted : p.counter ≡ alive p
  pub signal_waits : (p.cancelled ≡ true) ⊎ (p.signal ≡ true)
  pub nobody_left : (p.returned ≡ false) ⊎ (p.counter ≡ 0)

-- the property holds where a move leads, and the move is no panic
abbrev pub OnMove : (Process → Type 0) → Move → Type 0
OnMove P blocked = Unit
OnMove P panicked = ⊥
OnMove P (moved p) = P p

step-IsCounted : (p : Process) (e : Event) → IsCounted p → OnMove IsCounted (step p e)
unfolding step
step-IsCounted p sigterm h = ground arith
step-IsCounted p signal_ends h = ground arith
step-IsCounted p watch_fails h = ground arith
step-IsCounted p listen_fails h = ground arith
step-IsCounted p watcher_ends h = ground arith
step-IsCounted p router_starts h = ground arith
step-IsCounted p router_ends h = ground arith
step-IsCounted p idler_starts h = ground arith
step-IsCounted p idler_ends h = ground arith
step-IsCounted p run_returns h = ground arith

watch-IsCounted :
    (clusters : List Cluster) (p : Process)
    → IsCounted p
    → p.returned ≡ false
    → IsCounted (watch_openshift_events clusters p)
      × ((watch_openshift_events clusters p).returned ≡ false)
unfolding watch_openshift_events
watch-IsCounted [] p h r = (h, r)
watch-IsCounted (c ∷ cs) p h r = watch-IsCounted cs _ (ground arith) r

started-IsCounted : (clusters : List Cluster) (debug : Bool) → IsCounted (started clusters debug)
unfolding started start_workers setup_signal_channel
started-IsCounted clusters debug =
    let (h, r) = watch-IsCounted clusters (setup_signal_channel before_run) (ground arith) refl in
    ground (arith, h, r)

OnMove-and_then :
    {P : Process → Type 0} (Q : Process → Type 0) (f : Process → Move) (m : Move)
    → OnMove P m
    → ((q : Process) → P q → OnMove Q (f q))
    → OnMove Q (and_then m f)
OnMove-and_then Q f blocked h k = tt
OnMove-and_then Q f panicked h k = h
OnMove-and_then Q f (moved q) h k = k q h

pub run-IsCounted : (p : Process) (es : List Event) → IsCounted p → OnMove IsCounted (run p es)
unfolding run
run-IsCounted p [] h = h
run-IsCounted p (e ∷ es) h =
    OnMove-and_then IsCounted (λ q. run q es) (step p e) (step-IsCounted p e h)
      (λ q. run-IsCounted q es)

-- Whatever the goroutines do from the start of Run, in any order: Done never panics; the counter of
-- the wait group is the number of the goroutines that are alive (those for signals, of the watches, of
-- the routers that were started and of the user idlers); and until the context is done the goroutine
-- for signals is alive.
pub run_counts :
    (clusters : List Cluster) (debug : Bool) (es : List Event)
    → OnMove IsCounted (run (started clusters debug) es)
run_counts clusters debug es = run-IsCounted _ es (started-IsCounted clusters debug)

-- When Run has returned, the context is done, and no goroutine of the wait group is alive.
pub returns_last :
    (clusters : List Cluster) (debug : Bool) (es : List Event) (p : Process)
    → run (started clusters debug) es ≡ moved p
    → p.returned ≡ true
    → (p.cancelled ≡ true) × (alive p ≡ 0)
returns_last clusters debug es p h r =
    let c : IsCounted p = subst (OnMove IsCounted) h (run_counts clusters debug es) in
    ground (arith, c.counted, c.signal_waits, c.nobody_left, r)

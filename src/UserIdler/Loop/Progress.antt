-- ===== src/UserIdler/Loop/Progress.antt =====
-- What the goroutine gets done while it runs, and that nothing happens after it stopped.
use fabric8_jenkins_idler.Common.{
  ℕ, ◌+◌, ◌≤◌, pos, ◌<ℤ◌, true, false, List, [], ◌∷◌, some, length, length-append, ◌≡◌, ◌∙◌, arith,
}
use fabric8_jenkins_idler.Model.{User}
use fabric8_jenkins_idler.Condition.{idle}
use fabric8_jenkins_idler.UserIdler.Interfaces.{Services, send_idle}
use fabric8_jenkins_idler.UserIdler.Defs.{Machine, check_idle, service_ref, reset_counters}
use fabric8_jenkins_idler.UserIdler.Decision.{
  Decides, IsUp, WantsIdle, idle_if, after_enabled, after_state,
}
use fabric8_jenkins_idler.UserIdler.Loop.{
  Routine, Event, send, receive, timer, ticker, done, step, run, buffer_size,
}
use fabric8_jenkins_idler.UserIdler.Loop.Laws.{run-cons}

-- the machine that checks the user, right after a tick
abbrev pub renewed : Routine → User → Machine
renewed r u = record r.machine { idler = record (reset_counters r.machine.idler) { user = u } }

-- However many attempts were made before: after a tick the check of the next user that waits sends a
-- request to idle Jenkins, if the limit is positive, the idler is enabled, the conditions answer
-- `idle` with no error, and Jenkins is above the idled state.
pub idles_after_tick :
    (sv : Services) (r : Routine) (u : User) (us : List User)
    → r.running ≡ true
    → r.queue ≡ u ∷ us
    → pos 0 <ℤ r.machine.max_retries
    → Decides sv (renewed r u) idle
    → IsUp (sv.state (after_enabled sv (renewed r u)) (service_ref (renewed r u).idler "jenkins"))
    → (q : Routine) × (run sv r (ticker ∷ receive ∷ []) ≡ some q)
      × (q.machine.calls
          ≡ send_idle (service_ref (renewed r u).idler "jenkins") ∷ after_state sv (renewed r u))
unfolding run step reset_counters
idles_after_tick sv r u us on waits positive decides up =
    let q : Routine = record r {
      machine = (check_idle sv (renewed r u)).1;
      queue = us;
      armed = true;
    } in
    let wants : WantsIdle sv (renewed r u) = record {
      decides = decides;
      room = positive;
      up = up;
    } in
    (q, ground arith, idle_if sv (renewed r u) wants)

-- what `n` events do after the end
record IsHalted (n : ℕ) (r q : Routine) : Type 0 where
  machine : q.machine ≡ r.machine
  stopped : q.running ≡ false
  sent : length r.queue + n ≡ length q.queue
  room : length q.queue ≤ buffer_size

step-IsHalted :
    (sv : Services) (r q : Routine) (e : Event)
    → r.running ≡ false
    → step sv r e ≡ some q
    → IsHalted 1 r q
unfolding step
step-IsHalted sv r q (send u) off h = ground (arith, length-append r.queue (u ∷ []))
step-IsHalted sv r q receive off h = ground arith
step-IsHalted sv r q timer off h = ground arith
step-IsHalted sv r q ticker off h = ground arith
step-IsHalted sv r q done off h = ground arith

stopped-IsHalted :
    (sv : Services) (r q : Routine) (es : List Event)
    → r.running ≡ false
    → length r.queue ≤ buffer_size
    → run sv r es ≡ some q
    → IsHalted (length es) r q
unfolding run
stopped-IsHalted sv r q [] off room h = ground arith
stopped-IsHalted sv r q (e ∷ es) off room h =
    let (p, moved, rest) = run-cons sv r q e es h in
    let first = step-IsHalted sv r p e off moved in
    let later = stopped-IsHalted sv p q es first.stopped first.room rest in
    record {
      machine = later.machine ∙ first.machine;
      stopped = later.stopped;
      sent = omega (arith, first.sent, later.sent);
      room = later.room;
    }

-- Once the goroutine stopped, its idler stays as it is, it makes no call, and it never runs again;
-- and only senders move, each adding one user to the channel, so that at most `buffer_size` events
-- can follow.
pub stopped_for_good :
    (sv : Services) (r q : Routine) (es : List Event)
    → r.running ≡ false
    → length r.queue ≤ buffer_size
    → run sv r es ≡ some q
    → (q.machine ≡ r.machine)
      × (q.running ≡ false)
      × (length r.queue + length es ≡ length q.queue)
      × (length es ≤ buffer_size)
stopped_for_good sv r q es off room h =
    let s = stopped-IsHalted sv r q es off room h in
    (s.machine, s.stopped, s.sent, omega (arith, s.sent, s.room))

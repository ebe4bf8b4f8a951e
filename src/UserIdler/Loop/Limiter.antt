-- ===== src/UserIdler/Loop/Limiter.antt =====
-- What OpenShift sees of a user idler: a limiter that hands out a budget of requests and refills it at
-- each tick. It knows nothing of users, builds, conditions or channels.
use fabric8_jenkins_idler.Common.{
  pos, ◌≤ℤ◌, ◌⊎◌, ℕ, ◌+◌, ◌-◌, ◌≤◌, leb, pos_part, ℤ, ◌&&◌, List, [], ◌∷◌, Option, none, some, ◌≡◌,
  subst, String, refl, arith, if◌then◌else◌,
}
use fabric8_jenkins_idler.Model.{User}
use fabric8_jenkins_idler.UserIdler.Interfaces.{Services}
use fabric8_jenkins_idler.UserIdler.Defs.{Machine, check_idle, reset_counters, new_user_idler}
use fabric8_jenkins_idler.UserIdler.Requests.{idle_requests, un_idle_requests, check_idle-IsCounted}
use fabric8_jenkins_idler.UserIdler.Loop.{
  Routine, Event, send, receive, timer, ticker, done, start, step, receive_first, run,
}
use fabric8_jenkins_idler.UserIdler.Loop.Laws.{run-cons, received}

-- the budgets that are left, and what they are refilled to
pub record Limiter : Type 0 where
  pub limit : ℕ
  pub idles_left : ℕ
  pub un_idles_left : ℕ

-- What is visible of one event: the requests to idle and to un-idle that were sent, or a tick.
pub data Visible : Type 0 where
  requests : ℕ → ℕ → Visible
  refill : Visible

-- At most one request at a time, and only out of the budget of its kind.
unfoldable pub allow : Limiter → Visible → Option Limiter
allow b (requests i j) =
    if leb (i + j) 1 && leb i b.idles_left && leb j b.un_idles_left
    then some (record b { idles_left = b.idles_left - i; un_idles_left = b.un_idles_left - j })
    else none
allow b refill = some (record b { idles_left = b.limit; un_idles_left = b.limit })

unfoldable pub allow_all : Limiter → List Visible → Option Limiter
allow_all b [] = some b
allow_all b (v ∷ vs) = elim (allow b v) [ none ↦ none | some b' ↦ allow_all b' vs ]

-- the requests that the calls of `n` have more than those of `m`
abbrev pub sent : Machine → Machine → Visible
sent m n =
    requests (idle_requests n.calls - idle_requests m.calls)
      (un_idle_requests n.calls - un_idle_requests m.calls)

abbrev pub visible : Routine → Routine → Event → Visible
visible r q ticker = refill
visible r q e = sent r.machine q.machine

-- what is visible of a run
unfoldable pub trace : Services → Routine → List Event → List Visible
trace sv r [] = []
trace sv r (e ∷ es) = elim (step sv r e) [ none ↦ [] | some q ↦ visible r q e ∷ trace sv q es ]

-- The budget that is left and the attempts make up the limit.
pub record Stands (r : Routine) (b : Limiter) : Type 0 where
  pub limit : b.limit ≡ pos_part r.machine.max_retries
  pub idles : b.idles_left + r.machine.idle_attempts ≡ b.limit
  pub un_idles : b.un_idles_left + r.machine.un_idle_attempts ≡ b.limit

at_most_one :
    (sv : Services) (m : Machine)
    → idle_requests (check_idle sv m).1.calls + un_idle_requests (check_idle sv m).1.calls
      ≤ idle_requests m.calls + un_idle_requests m.calls + 1
unfolding check_idle
at_most_one sv m = ground arith

never_less :
    (sv : Services) (m : Machine)
    → (idle_requests m.calls ≤ idle_requests (check_idle sv m).1.calls)
      × (un_idle_requests m.calls ≤ un_idle_requests (check_idle sv m).1.calls)
unfolding check_idle
never_less sv m = ground arith

-- a limiter that allows what is visible, and that the routine stands for afterwards
record Allowed (q : Routine) (b : Limiter) (v : Visible) : Type 0 where
  next : Limiter
  allowed : allow b v ≡ some next
  stands : Stands q next

-- what was sent between two machines
record IsSent (m n : Machine) (i j : ℕ) : Type 0 where
  same_limit : n.max_retries ≡ m.max_retries
  idles : n.idle_attempts ≡ m.idle_attempts + i
  un_idles : n.un_idle_attempts ≡ m.un_idle_attempts + j
  one : i + j ≤ 1
  idles_capped : (n.idle_attempts ≤ m.idle_attempts) ⊎ (pos n.idle_attempts ≤ℤ m.max_retries)
  un_idles_capped :
      (n.un_idle_attempts ≤ m.un_idle_attempts) ⊎ (pos n.un_idle_attempts ≤ℤ m.max_retries)

IsSent-Allowed :
    (r q : Routine) (b : Limiter) (i j : ℕ)
    → Stands r b
    → IsSent r.machine q.machine i j
    → Allowed q b (requests i j)
unfolding allow
IsSent-Allowed r q b i j s h = record {
  next = record b { idles_left = b.idles_left - i; un_idles_left = b.un_idles_left - j };
  allowed = ground (
    arith, s.limit, s.idles, s.un_idles, h.idles, h.un_idles, h.one, h.idles_capped,
    h.un_idles_capped,
  );
  stands = record {
    limit = ground (arith, s.limit, h.same_limit);
    idles = ground (arith, s.limit, s.idles, h.idles, h.idles_capped);
    un_idles = ground (arith, s.limit, s.un_idles, h.un_idles, h.un_idles_capped);
  };
}

abbrev IsSentBy : Machine → Machine → Type 0
IsSentBy m n =
    IsSent m n (idle_requests n.calls - idle_requests m.calls)
      (un_idle_requests n.calls - un_idle_requests m.calls)

module _ (sv : Services) where
  check-IsSent : (m : Machine) → IsSentBy m (check_idle sv m).1
  check-IsSent m =
      let counted = check_idle-IsCounted sv m in
      let (more_idles, more_un_idles) = never_less sv m in
      record {
        same_limit = counted.same_limit;
        idles = omega (arith, counted.idles, more_idles);
        un_idles = omega (arith, counted.un_idles, more_un_idles);
        one = omega (arith, at_most_one sv m, more_idles, more_un_idles);
        idles_capped = counted.idles_capped;
        un_idles_capped = counted.un_idles_capped;
      }

  receive-IsSent :
      (us : List User) (r q : Routine)
      → receive_first sv us r ≡ some q
      → IsSentBy r.machine q.machine
  receive-IsSent [] r q h = cc
  receive-IsSent (u ∷ us) r q h = ground (arith, check-IsSent (received sv r u))

  step-Allowed :
      (r q : Routine) (b : Limiter) (e : Event)
      → Stands r b
      → step sv r e ≡ some q
      → Allowed q b (visible r q e)
  unfolding step reset_counters allow
  step-Allowed r q b (send u) s h = IsSent-Allowed r q b _ _ s (ground arith)
  step-Allowed r q b receive s h =
      IsSent-Allowed r q b _ _ s (ground (arith, receive-IsSent r.queue r q))
  step-Allowed r q b timer s h = IsSent-Allowed r q b _ _ s (ground (arith, check-IsSent r.machine))
  step-Allowed r q b ticker s h = record {
    next = record b { idles_left = b.limit; un_idles_left = b.limit };
    allowed = refl;
    stands = ground arith;
  }
  step-Allowed r q b done s h = IsSent-Allowed r q b _ _ s (ground arith)

run-Allowed :
    (sv : Services) (r r' : Routine) (b : Limiter) (es : List Event)
    → Stands r b
    → run sv r es ≡ some r'
    → (b' : Limiter) × (allow_all b (trace sv r es) ≡ some b') × Stands r' b'
unfolding run trace allow_all
run-Allowed sv r r' b [] s h = (b, refl, subst (λ q. Stands q b) (ground arith) s)
run-Allowed sv r r' b (e ∷ es) s h =
    let (q, moved, rest) = run-cons sv r r' e es h in
    let first = step-Allowed sv r q b e s moved in
    let (b', allowed, stands) = run-Allowed sv q r' first.next es first.stands rest in
    (b', rw (moved, allow_all, first.allowed) allowed, stands)

-- the limiter of `n` requests of each kind
abbrev pub full_budget : ℕ → Limiter
full_budget n = record { limit = n; idles_left = n; un_idles_left = n }

-- The goroutine refines a limiter of requests: what OpenShift sees of any run of it from its start, a
-- tick or the requests of each event, is what the limiter with a budget of `max_retries` requests of
-- each kind allows. And where the run ends, the budgets that are left are the attempts that are left.
pub run_refines_limiter :
    (sv : Services) (u : User) (api token : String) (max_retries idle_after idle_long_build : ℤ)
    (r : Routine) (es : List Event)
    → run sv (start (new_user_idler u api token max_retries idle_after idle_long_build)) es ≡ some r
    → (b : Limiter) × (allow_all
          (full_budget (pos_part max_retries))
          (trace sv (start (new_user_idler u api token max_retries idle_after idle_long_build)) es)
        ≡ some b)
      × Stands r b
unfolding start new_user_idler
run_refines_limiter sv u api token max_retries idle_after idle_long_build r es h =
    run-Allowed sv _ r (full_budget (pos_part max_retries)) es (ground arith) h

-- ===== src/UserIdler/Loop/Laws.antt =====
-- What holds of every run of the goroutine: how often the timer fires, and how many requests are sent.
use fabric8_jenkins_idler.Common.{
  ℕ, suc, ◌+◌, ◌*◌, ◌≤◌, ℤ, pos_part, Bool, true, false, List, [], ◌∷◌, some, length, length-append,
  ◌≡◌, ap, subst, ◌∙◌, String, inl, inr, refl, arith, Option-cases,
}
use fabric8_jenkins_idler.Model.{User}
use fabric8_jenkins_idler.UserIdler.Interfaces.{Services}
use fabric8_jenkins_idler.UserIdler.Defs.{Machine, reset_counters, new_user_idler}
use fabric8_jenkins_idler.UserIdler.Requests.{idle_requests, un_idle_requests, check_idle-IsCounted}
use fabric8_jenkins_idler.UserIdler.Loop.{
  Routine, Event, send, receive, timer, ticker, done, start, step, receive_first, run, buffer_size,
}

-- occurrences of the events in a run
abbrev pub timers : List Event → ℕ
timers [] = 0
timers (timer ∷ es) = suc (timers es)
timers (_ ∷ es) = timers es

abbrev pub receives : List Event → ℕ
receives [] = 0
receives (receive ∷ es) = suc (receives es)
receives (_ ∷ es) = receives es

abbrev pub tickers : List Event → ℕ
tickers [] = 0
tickers (ticker ∷ es) = suc (tickers es)
tickers (_ ∷ es) = tickers es

abbrev pub armed_once : Bool → ℕ
armed_once true = 1
armed_once false = 0

module _ (sv : Services) where
  step_timer :
      (r r' : Routine) (e : Event)
      → step sv r e ≡ some r'
      → timers (e ∷ []) + armed_once r'.armed ≤ receives (e ∷ []) + armed_once r.armed
  unfolding step
  step_timer r r' (send u) h = ground arith
  step_timer r r' receive h = ground arith
  step_timer r r' timer h = ground arith
  step_timer r r' ticker h = ground arith
  step_timer r r' done h = ground arith

  -- a run of at least one event is a step and a run
  pub run-cons :
      (r r' : Routine) (e : Event) (es : List Event)
      → run sv r (e ∷ es) ≡ some r'
      → (q : Routine) × (step sv r e ≡ some q) × (run sv q es ≡ some r')
  unfolding run
  run-cons r r' e es h = elim (Option-cases (step sv r e)) [
    | inl stuck ↦ cc (rw (stuck, run) at h)
    | inr (q, moved) ↦ (q, moved, rw (moved, run) at h)
  ]

timers-cons : (e : Event) (es : List Event) → timers (e ∷ es) ≡ timers (e ∷ []) + timers es
timers-cons timer es = omega arith
timers-cons _ es = omega arith

receives-cons : (e : Event) (es : List Event) → receives (e ∷ es) ≡ receives (e ∷ []) + receives es
receives-cons receive es = omega arith
receives-cons _ es = omega arith

-- In every run the timer fires at most once more than users are received. So without an event for
-- the user there is at most one time-based check.
pub timers-le-receives :
    (sv : Services) (r r' : Routine) (es : List Event)
    → run sv r es ≡ some r'
    → timers es + armed_once r'.armed ≤ receives es + armed_once r.armed
unfolding run
timers-le-receives sv r r' [] h = ground arith
timers-le-receives sv r r' (e ∷ es) h =
    let (q, moved, rest) = run-cons sv r r' e es h in
    omega (
      arith,
      timers-cons e es,
      receives-cons e es,
      step_timer sv r q e moved,
      timers-le-receives sv q r' es rest,
    )

-- The attempts, the requests and the limit of a routine
abbrev limit : Routine → ℕ
limit r = pos_part r.machine.max_retries

pub record IsWithin (r : Routine) : Type 0 where
  pub idles : r.machine.idle_attempts ≤ limit r
  pub un_idles : r.machine.un_idle_attempts ≤ limit r
  pub room : length r.queue ≤ buffer_size

-- what one event adds, with `k` attempts given back by a reset
record IsMove (k : ℕ) (r q : Routine) : Type 0 where
  same_limit : q.machine.max_retries ≡ r.machine.max_retries
  within : IsWithin q
  idles :
      idle_requests q.machine.calls + r.machine.idle_attempts
      ≤ idle_requests r.machine.calls + q.machine.idle_attempts + k
  un_idles :
      un_idle_requests q.machine.calls + r.machine.un_idle_attempts
      ≤ un_idle_requests r.machine.calls + q.machine.un_idle_attempts + k

module _ (sv : Services) where
  abbrev pub received : Routine → User → Machine
  received r u = record r.machine { idler = record r.machine.idler { user = u } }

  receive-IsMove :
      (us : List User) (r q : Routine)
      → IsWithin r
      → r.queue ≡ us
      → receive_first sv us r ≡ some q
      → IsMove 0 r q
  receive-IsMove [] r q w e h = cc
  receive-IsMove (u ∷ us) r q w e h = ground (arith, check_idle-IsCounted sv (received r u))

  step-IsMove :
      (r q : Routine) (e : Event)
      → IsWithin r
      → step sv r e ≡ some q
      → IsMove (limit r * tickers (e ∷ [])) r q
  unfolding step reset_counters
  step-IsMove r q (send u) w h = ground (arith, length-append r.queue (u ∷ []))
  step-IsMove r q receive w h = ground (arith, receive-IsMove r.queue r q w refl)
  step-IsMove r q timer w h = ground (arith, check_idle-IsCounted sv r.machine)
  step-IsMove r q ticker w h = ground arith
  step-IsMove r q done w h = ground arith

tickers-cons : (e : Event) (es : List Event) → tickers (e ∷ es) ≡ tickers (e ∷ []) + tickers es
tickers-cons ticker es = omega arith
tickers-cons _ es = omega arith

IsMove-trans : (k l : ℕ) (r q p : Routine) → IsMove k r q → IsMove l q p → IsMove (k + l) r p
IsMove-trans k l r q p a b = record {
  same_limit = b.same_limit ∙ a.same_limit;
  within = b.within;
  idles = omega (arith, a.idles, b.idles);
  un_idles = omega (arith, a.un_idles, b.un_idles);
}

run-IsMove :
    (sv : Services) (r r' : Routine) (es : List Event)
    → IsWithin r
    → run sv r es ≡ some r'
    → IsMove (limit r * tickers es) r r'
unfolding run
run-IsMove sv r r' [] w h = ground arith
run-IsMove sv r r' (e ∷ es) w h =
    let (q, moved, rest) = run-cons sv r r' e es h in
    let first = step-IsMove sv r q e w moved in
    let later = run-IsMove sv q r' es first.within rest in
    let same : limit q ≡ limit r = ap pos_part first.same_limit in
    let total : limit r * tickers (e ∷ []) + limit q * tickers es ≡ limit r * tickers (e ∷ es) =
      rw (same, tickers-cons e es) (omega arith) in
    subst (λ k. IsMove k r r') total (IsMove-trans _ _ r q r' first later)

-- From the start of the goroutine, whatever happens: no retry counter passes the limit, the channel
-- never holds more than its buffer, and the requests to idle, and those to un-idle, are at most
-- `max_retries` for each period between two resets of the counters.
pub run_bounded :
    (sv : Services) (u : User) (api token : String) (max_retries idle_after idle_long_build : ℤ)
    (r : Routine) (es : List Event)
    → run sv (start (new_user_idler u api token max_retries idle_after idle_long_build)) es ≡ some r
    → IsWithin r
      × (idle_requests r.machine.calls ≤ pos_part max_retries * suc (tickers es))
      × (un_idle_requests r.machine.calls ≤ pos_part max_retries * suc (tickers es))
unfolding start new_user_idler
run_bounded sv u api token max_retries idle_after idle_long_build r es h =
    let m = run-IsMove sv _ r es (omega arith) h in
    let same = ap pos_part m.same_limit in
    (m.within, omega (arith, m.idles, m.within, same), omega (arith, m.un_idles, m.within, same))

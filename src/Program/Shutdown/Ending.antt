-- ===== src/Program/Shutdown/Ending.antt =====
-- After the context is done: Run can return, and the goroutines that can end are as many as the counter
-- says.
use fabric8_jenkins_idler.Common.{
  ℕ, zero, suc, ◌+◌, Bool, true, false, List, [], ◌∷◌, length, All, subst, ◌≡◌, refl, ap, arith,
}
use fabric8_jenkins_idler.Cluster.{Cluster}
use fabric8_jenkins_idler.Program.Shutdown.{
  Process, Move, blocked, panicked, moved, started, Event, sigterm, signal_ends, watch_fails,
  listen_fails, watcher_ends, router_starts, router_ends, idler_starts, idler_ends, run_returns,
  step, run, and_then,
}
use fabric8_jenkins_idler.Program.Shutdown.Counted.{
  alive, alive_once, IsCounted, OnMove, run_counts,
}

-- A goroutine ends, or Run returns: what needs the context to be done, and nothing from outside.
abbrev pub is_end : Event → Bool
is_end signal_ends = true
is_end watcher_ends = true
is_end router_ends = true
is_end idler_ends = true
is_end run_returns = true
is_end _ = false

-- a process on its way to the end
record IsEnding (n : ℕ) (p : Process) : Type 0 where
  counted : p.counter ≡ alive p
  cancelled : p.cancelled ≡ true
  goes_on : p.returned ≡ false
  left : p.counter ≡ n

-- an end that can happen, with what it leaves
record CanEnd (n : ℕ) (p : Process) : Type 0 where
  event : Event
  next : Process
  happens : step p event ≡ moved next
  ends : is_end event ≡ true
  ending : IsEnding n next

can_end :
    (n : ℕ) (p : Process)
    → IsEnding (suc n) p
    → (signal : Bool) (watchers routers idlers : ℕ) → p.signal ≡ signal
    → p.watchers ≡ watchers
    → p.routers ≡ routers
    → p.idlers ≡ idlers
    → CanEnd n p
unfolding step
can_end n p h true w r i es ew er ei = record {
  event = signal_ends;
  next = record p { cancelled = true; counter = n; signal = false };
  happens = ground (arith, h.cancelled, h.goes_on, h.left, es);
  ends = refl;
  ending = ground (arith, h.counted, h.goes_on, h.left, es);
}
can_end n p h false (suc w) r i es ew er ei = record {
  event = watcher_ends;
  next = record p { counter = n; watchers = w };
  happens = ground (arith, h.cancelled, h.goes_on, h.left, ew);
  ends = refl;
  ending = ground (arith, h.counted, h.cancelled, h.goes_on, h.left, ew);
}
can_end n p h false zero (suc r) i es ew er ei = record {
  event = router_ends;
  next = record p { counter = n; routers = r };
  happens = ground (arith, h.cancelled, h.goes_on, h.left, er);
  ends = refl;
  ending = ground (arith, h.counted, h.cancelled, h.goes_on, h.left, er);
}
can_end n p h false zero zero (suc i) es ew er ei = record {
  event = idler_ends;
  next = record p { counter = n; idlers = i };
  happens = ground (arith, h.cancelled, h.goes_on, h.left, ei);
  ends = refl;
  ending = ground (arith, h.counted, h.cancelled, h.goes_on, h.left, ei);
}
can_end n p h false zero zero zero es ew er ei =
    absurd (ground (arith, h.counted, h.left, es, ew, er, ei))

-- the events that end the process
record IsEnded (n : ℕ) (p : Process) (es : List Event) : Type 0 where
  last : Process
  runs : run p es ≡ moved last
  returned : last.returned ≡ true
  ends : All (λ e. is_end e ≡ true) es
  many : length es ≡ suc n

returns : (p : Process) → IsEnding 0 p → IsEnded 0 p (run_returns ∷ [])
unfolding run step
returns p h = record {
  last = record p { cancelled = true; returned = true };
  runs = ground (arith, h.goes_on, h.left);
  returned = refl;
  ends = (refl, tt);
  many = refl;
}

all_end : (n : ℕ) (p : Process) → IsEnding n p → (es : List Event) × IsEnded n p es
unfolding run
all_end zero p h = (run_returns ∷ [], returns p h)
all_end (suc n) p h =
    let one = can_end n p h p.signal p.watchers p.routers p.idlers refl refl refl refl in
    let (es, rest) = all_end n one.next one.ending in
    (
      one.event ∷ es,
      record {
        last = rest.last;
        runs = rw (run, one.happens) rest.runs;
        returned = rest.returned;
        ends = (one.ends, rest.ends);
        many = ap suc rest.many;
      },
    )

-- Once the context is done, the process can always come to its end by itself: after any run from the
-- start of Run that has not returned yet, there is a further run of as many events as the wait group
-- counts and one more, all of them ends of goroutines and the return of Run, after which Run has
-- returned.
pub can_return :
    (clusters : List Cluster) (debug : Bool) (es : List Event) (p : Process)
    → run (started clusters debug) es ≡ moved p
    → p.cancelled ≡ true
    → p.returned ≡ false
    → (fs : List Event) × (q : Process) × (run p fs ≡ moved q)
      × (q.returned ≡ true)
      × All (λ e. is_end e ≡ true) fs
      × (length fs ≡ suc p.counter)
can_return clusters debug es p h c r =
    let counted : IsCounted p = subst (OnMove IsCounted) h (run_counts clusters debug es) in
    let ending : IsEnding p.counter p = record {
      counted = counted.counted;
      cancelled = c;
      goes_on = r;
      left = refl;
    } in
    let (fs, ended) = all_end p.counter p ending in
    (fs, ended.last, ended.runs, ended.returned, ended.ends, ended.many)

-- how often a goroutine ends in a list of events, and how often one is added to the group
abbrev pub ends : List Event → ℕ
ends [] = 0
ends (run_returns ∷ es) = ends es
ends (sigterm ∷ es) = suc (ends es)
ends (e ∷ es) = alive_once (is_end e) + ends es

abbrev pub starts : List Event → ℕ
starts [] = 0
starts (router_starts ∷ es) = suc (starts es)
starts (idler_starts ∷ es) = suc (starts es)
starts (e ∷ es) = starts es

step-ends :
    (p q : Process) (e : Event)
    → step p e ≡ moved q
    → q.counter + ends (e ∷ []) ≡ p.counter + starts (e ∷ [])
unfolding step
step-ends p q sigterm h = ground arith
step-ends p q signal_ends h = ground arith
step-ends p q watch_fails h = ground arith
step-ends p q listen_fails h = ground arith
step-ends p q watcher_ends h = ground arith
step-ends p q router_starts h = ground arith
step-ends p q router_ends h = ground arith
step-ends p q idler_starts h = ground arith
step-ends p q idler_ends h = ground arith
step-ends p q run_returns h = ground arith

and_then-moved :
    (f : Process → Move) (m : Move) (q : Process)
    → and_then m f ≡ moved q
    → (p : Process) × (m ≡ moved p) × (f p ≡ moved q)
and_then-moved f blocked q h = cc
and_then-moved f panicked q h = cc
and_then-moved f (moved p) q h = (p, refl, h)

ends-cons : (e : Event) (es : List Event) → ends (e ∷ es) ≡ ends (e ∷ []) + ends es
ends-cons sigterm es = omega arith
ends-cons run_returns es = omega arith
ends-cons _ es = omega arith

starts-cons : (e : Event) (es : List Event) → starts (e ∷ es) ≡ starts (e ∷ []) + starts es
starts-cons router_starts es = omega arith
starts-cons idler_starts es = omega arith
starts-cons _ es = omega arith

-- In every run as many goroutines end as the wait group counted before and were added to it, less
-- those it counts afterwards. So only so many ends can follow each other before Run can return.
pub ends_bounded :
    (p q : Process) (es : List Event)
    → run p es ≡ moved q
    → q.counter + ends es ≡ p.counter + starts es
unfolding run
ends_bounded p q [] h = ground arith
ends_bounded p q (e ∷ es) h =
    let (r, first, rest) = and_then-moved (λ r. run r es) (step p e) q h in
    omega (arith, ends-cons e es, starts-cons e es, step-ends p r e first, ends_bounded r q es rest)

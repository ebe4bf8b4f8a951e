-- ===== src/UserIdler/Loop.antt =====
-- UserIdler.Run: the goroutine's `select` as a step function on the events that it waits for. The
-- channel is a queue of at most `buffer_size` users; `armed` says that the timer is still to fire.
pub mod Laws
pub mod Limiter
pub mod Progress
pub mod Order
use fabric8_jenkins_idler.Common.{
  ℕ, ltb, Bool, true, false, List, [], ◌∷◌, ◌++◌, Option, none, some, length, if◌then◌else◌,
}
use fabric8_jenkins_idler.Model.{User}
use fabric8_jenkins_idler.UserIdler.Interfaces.{Services}
use fabric8_jenkins_idler.UserIdler.Defs.{UserIdler, Machine, check_idle, reset_counters}

abbrev pub buffer_size : ℕ
buffer_size = 10

pub record Routine : Type 0 where
  pub machine : Machine
  pub queue : List User
  pub armed : Bool
  pub running : Bool

-- What can happen next: a sender puts a user into the channel, or the goroutine takes a case of its
-- `select`.
pub data Event : Type 0 where
  send : User → Event
  receive timer ticker done : Event

-- Run starts with an armed timer.
unfoldable pub start : UserIdler → Routine
start i = record {
  machine = record { idler = i; calls = [] };
  queue = [];
  armed = true;
  running = true;
}

abbrev pub receive_first : Services → List User → Routine → Option Routine
receive_first sv [] r = none
receive_first sv (u ∷ rest) r =
    let m = record r.machine { idler = record r.machine.idler { user = u } } in
    some (record r { machine = (check_idle sv m).1; queue = rest; armed = true })

-- `none` is an event that cannot happen now. The error of a check is logged and dropped.
unfoldable pub step : Services → Routine → Event → Option Routine
step sv r (send u) =
    if ltb (length r.queue) buffer_size then some (record r { queue = r.queue ++ u ∷ [] }) else none
step sv r receive = if r.running then receive_first sv r.queue r else none
step sv r timer =
    if r.running
    then (if r.armed
        then some (record r { machine = (check_idle sv r.machine).1; armed = false })
        else none)
    else none
step sv r ticker =
    if r.running
    then some (record r { machine = record r.machine { idler = reset_counters r.machine.idler } })
    else none
step sv r done = if r.running then some (record r { running = false }) else none

unfoldable pub run : Services → Routine → List Event → Option Routine
unfolding step
run sv r [] = some r
run sv r (e ∷ es) = elim (step sv r e) [ none ↦ none | some r' ↦ run sv r' es ]

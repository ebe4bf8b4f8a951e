-- ===== src/Controller/Events/Kept.antt =====
-- A property of the users of the system: the rules that it has to keep, and the user idlers by them.
use fabric8_jenkins_idler.Common.{
  String, Bool, false, List, [], ◌∷◌, ◌++◌, ltb, length, All, ◌≡◌, Time, OnSome, OnSome-if,
}
use fabric8_jenkins_idler.ConcurrentMap.{ConcurrentMap}
use fabric8_jenkins_idler.Model.{User, new_user, Build}
use fabric8_jenkins_idler.Model.StringSet
use fabric8_jenkins_idler.UserIdler.{reset_counters, Services, Machine, UserIdler, check_idle}
use fabric8_jenkins_idler.UserIdler.Requests.{check_idle_keeps_builds}
use fabric8_jenkins_idler.UserIdler.Loop.{Routine, start, receive_first}
use fabric8_jenkins_idler.UserIdler.Loop
use fabric8_jenkins_idler.Controller.Defs.{record_build, clean_active}

-- the builds and the name of two users are the same
abbrev pub SameBuilds : User → User → Type 0
SameBuilds u v =
    (u.active_build ≡ v.active_build) × (u.done_build ≡ v.done_build) × (u.name ≡ v.name)

-- What is to hold of the user that the idler of a namespace has, and of the users that are sent to it,
-- as long as the set of disabled users is one of those that are allowed.
pub record Rules (set : ConcurrentMap Bool) : Type 1 where
  pub Own : String → User → Type 0
  pub Sent : String → User → Type 0
  pub Allowed : set.Map → Type 0
  pub own-new : (id ns : String) → Own ns (new_user id ns)
  pub own-sent : (ns : String) (u : User) → Sent ns u → Own ns u
  pub own-checked : (ns : String) (u v : User) → Own ns u → SameBuilds v u → Own ns v
  pub sent-build :
      (ns : String) (u : User) (b : Build) (d : set.Map)
      → Own ns u
      → Allowed d
      → StringSet.has set d u.name ≡ false
      → Sent ns (clean_active (record_build u b)).0
  pub sent-update :
      (ns : String) (u : User) (t : Time) (d : set.Map)
      → Own ns u
      → Allowed d
      → StringSet.has set d u.name ≡ false
      → Sent ns (record u { jenkins_last_update = t })

All-end {ℓ} :
    {A : Type 0} (P : A → Type ℓ) (xs : List A) (x : A) → All P xs → P x → All P (xs ++ x ∷ [])
All-end P [] x h p = (p, tt)
All-end P (y ∷ xs) x h p = (h.0, All-end P xs x h.1 p)

module _ (idlers : ConcurrentMap Routine) (set : ConcurrentMap Bool) (k : Rules set) where
  open k use {Own, Sent, Allowed, own-new, own-sent, own-checked, sent-build, sent-update}

  -- the users of a namespace's routine: its own, and those in its channel
  pub record Keeps (ns : String) (r : Routine) : Type 0 where
    pub own : Own ns r.machine.user
    pub queued : All (Sent ns) r.queue

  check-Own :
      (ns : String) (sv : Services) (m : Machine) → Own ns m.user → Own ns (check_idle sv m).1.user
  check-Own ns sv m h =
      own-checked ns m.user (check_idle sv m).1.user h (check_idle_keeps_builds sv m)

  pub start-Keeps : (ns : String) (i : UserIdler) → Own ns i.user → Keeps ns (start i)
  unfolding start
  start-Keeps ns i h = record { own = h; queued = tt }

  receive-Keeps :
      (ns : String) (sv : Services) (us : List User) (r : Routine)
      → All (Sent ns) us
      → OnSome (Keeps ns) (receive_first sv us r)
  receive-Keeps ns sv [] r a = tt
  receive-Keeps ns sv (u ∷ us) r a = record {
    own = check-Own ns sv _ (own-sent ns u a.0);
    queued = a.1;
  }

  -- an event of the goroutine, where a user that is sent to it may be
  abbrev pub Sends : String → Loop.Event → Type 0
  Sends ns (Loop.send u) = Sent ns u
  Sends ns _ = Unit

  pub step-Keeps :
      (ns : String) (sv : Services) (r : Routine) (e : Loop.Event)
      → Sends ns e
      → Keeps ns r
      → OnSome (Keeps ns) (Loop.step sv r e)
  unfolding Loop.step reset_counters
  step-Keeps ns sv r (Loop.send u) s h =
      OnSome-if (Keeps ns) (ltb (length r.queue) Loop.buffer_size) _ _
        (record { own = h.own; queued = All-end (Sent ns) r.queue u h.queued s }) tt
  step-Keeps ns sv r Loop.receive s h =
      OnSome-if (Keeps ns) r.running _ _ (receive-Keeps ns sv r.queue r h.queued) tt
  step-Keeps ns sv r Loop.timer s h =
      OnSome-if (Keeps ns) r.running _ _
        (OnSome-if (Keeps ns) r.armed _ _
          (record { own = check-Own ns sv r.machine h.own; queued = h.queued }) tt)
        tt
  step-Keeps ns sv r Loop.ticker s h =
      OnSome-if (Keeps ns) r.running _ _ (record { own = h.own; queued = h.queued }) tt
  step-Keeps ns sv r Loop.done s h =
      OnSome-if (Keeps ns) r.running _ _ (record { own = h.own; queued = h.queued }) tt

-- ===== src/Controller/Events/Separation.antt =====
-- The users that keep their active build and their done build apart, as rules for the system.
use fabric8_jenkins_idler.Common.{
  String, All, Bool, Option, none, some, OnSome, refl, ◌∙◌, List, [], ◌∷◌,
}
use fabric8_jenkins_idler.ConcurrentMap.{ConcurrentMap}
use fabric8_jenkins_idler.Model.{User, new_user}
use fabric8_jenkins_idler.UserIdler.Loop.{Routine}
use fabric8_jenkins_idler.Controller.Defs.{record_build}
use fabric8_jenkins_idler.Controller.Builds.{IsSeparated, clean_active-IsSeparated}
use fabric8_jenkins_idler.Controller.Events.{
  System, Event, users_changed, build_event, dc_event, delivered, timed_out, idler_event,
}
use fabric8_jenkins_idler.Controller.Events.Kept.{Rules, SameBuilds}
use fabric8_jenkins_idler.Controller.Events.Kept
use fabric8_jenkins_idler.Controller.Events.Running.{AllKept, IsAllowed}

pub checked-IsSeparated : (u v : User) → IsSeparated u → SameBuilds v u → IsSeparated v
checked-IsSeparated u v h same e = same.0 ∙ h (cc (e, same.0, same.1))

pub new_user-IsSeparated : (id name : String) → IsSeparated (new_user id name)
unfolding new_user
new_user-IsSeparated id name h = refl

-- the users of a routine: its own, and those in its channel
pub record Keeps (r : Routine) : Type 0 where
  pub own : IsSeparated r.machine.user
  pub queued : All IsSeparated r.queue

module _ (set : ConcurrentMap Bool) where
  abbrev pub separation : Rules set
  separation = record {
    Own = λ ns u. IsSeparated u;
    Sent = λ ns u. IsSeparated u;
    Allowed = λ d. Unit;
    own-new = λ id ns. new_user-IsSeparated id ns;
    own-sent = λ ns u h. h;
    own-checked = λ ns u v h same. checked-IsSeparated u v h same;
    sent-build =
        λ ns u b d h a enabled. clean_active-IsSeparated (record_build u b).0 (record_build u b).1;
    sent-update = λ ns u t d h a enabled. h;
  }

module _ (idlers : ConcurrentMap Routine) (set : ConcurrentMap Bool) where
  -- every user idler of the map, and every user that a watcher is sending
  pub record AllSeparated (s : System idlers set) : Type 0 where
    pub at : (ns : String) → OnSome Keeps (idlers.get s.controller.user_idlers ns)
    pub build : OnSome (λ (x : String × User). IsSeparated x.1) s.sending_build
    pub dc : OnSome (λ (x : String × User). IsSeparated x.1) s.sending_dc

  keeps-on :
      (ns : String) (r : Option Routine)
      → OnSome (Kept.Keeps idlers set (separation set) ns) r
      → OnSome Keeps r
  keeps-on ns none h = tt
  keeps-on ns (some r) h = record { own = h.own; queued = h.queued }

  pub AllKept-AllSeparated :
      (s : System idlers set) → AllKept idlers set (separation set) s → AllSeparated s
  AllKept-AllSeparated s h = record {
    at = λ ns. keeps-on ns (idlers.get s.controller.user_idlers ns) (h.held.at ns);
    build = h.build;
    dc = h.dc;
  }

  pub events-IsAllowed :
      (es : List (Event idlers set)) → All (IsAllowed idlers set (separation set)) es
  events-IsAllowed [] = tt
  events-IsAllowed (users_changed d ∷ es) = (tt, events-IsAllowed es)
  events-IsAllowed (build_event tenant o ∷ es) = (tt, events-IsAllowed es)
  events-IsAllowed (dc_event tenant o ∷ es) = (tt, events-IsAllowed es)
  events-IsAllowed (delivered w ∷ es) = (tt, events-IsAllowed es)
  events-IsAllowed (timed_out w ∷ es) = (tt, events-IsAllowed es)
  events-IsAllowed (idler_event ns e ∷ es) = (tt, events-IsAllowed es)

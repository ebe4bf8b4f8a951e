-- ===== src/Controller/Events/Running.antt =====
-- A property of the users through every event and every run of the system.
use fabric8_jenkins_idler.Common.{
  String, Bool, List, [], ◌∷◌, Option, none, some, Result, ◌≡◌, inl, inr, Option-cases, OnSome,
  OnSome-some, All,
}
use fabric8_jenkins_idler.ConcurrentMap.{ConcurrentMap}
use fabric8_jenkins_idler.Model.{User, Object, DcObject}
use fabric8_jenkins_idler.Tenant.{InfoList}
use fabric8_jenkins_idler.UserIdler.{Services}
use fabric8_jenkins_idler.UserIdler.Loop.{Routine, start, receive_first}
use fabric8_jenkins_idler.UserIdler.Loop
use fabric8_jenkins_idler.Controller.Defs.{
  Config, Controller, Outcome, returned, sends, panicked, handle_build, handle_deployment_config,
}
use fabric8_jenkins_idler.Controller.Events.Kept.{Rules, Keeps, Sends, step-Keeps}
use fabric8_jenkins_idler.Controller.Events.Handlers.{
  Held, Leaves, set-Held, handle_build-Leaves, handle_deployment_config-Leaves,
}
use fabric8_jenkins_idler.Controller.Events.{
  System, Event, Watcher, build_event, dc_event, delivered, timed_out, idler_event, users_changed,
  builds, deployments, handled, put_routine, in_idler, deliver, give_up, set_sending, sending, step,
  run, on_build, on_dc, initial,
}

module _ (idlers : ConcurrentMap Routine) (set : ConcurrentMap Bool) (k : Rules set) where
  -- a user that is being sent to the idler of a namespace
  abbrev pub SentKept : String × User → Type 0
  SentKept x = k.Sent x.0 x.1

  -- every user idler of the map, and every user that a watcher is sending
  pub record AllKept (s : System idlers set) : Type 0 where
    pub held : Held idlers set k s.controller
    pub build : OnSome SentKept s.sending_build
    pub dc : OnSome SentKept s.sending_dc

  -- an event of the system, where the API changes the set of disabled users to one that is allowed
  abbrev pub IsAllowed : Event idlers set → Type 0
  IsAllowed (users_changed d) = k.Allowed d
  IsAllowed _ = Unit

module _ (idlers : ConcurrentMap Routine) (set : ConcurrentMap Bool) (k : Rules set) (c : Config)
    (services : String → Services) where
  handled-AllKept :
      (w : Watcher) (s : System idlers set) (p : Outcome × Controller idlers set)
      → AllKept idlers set k s
      → Leaves idlers set k p
      → OnSome (AllKept idlers set k) (handled idlers set w s p)
  handled-AllKept w s (returned e, k) h l = record { held = l.1; build = h.build; dc = h.dc }
  handled-AllKept builds s (sends ns u, k) h l = record { held = l.1; build = l.0; dc = h.dc }
  handled-AllKept deployments s (sends ns u, k) h l = record {
    held = l.1;
    build = h.build;
    dc = l.0;
  }
  handled-AllKept w s (panicked, k) h l = tt

  put-AllKept :
      (ns : String) (s : System idlers set) (r : Option Routine)
      → AllKept idlers set k s
      → OnSome (Keeps idlers set k ns) r
      → OnSome (AllKept idlers set k) (put_routine idlers set ns s r)
  put-AllKept ns s none h keeps = tt
  put-AllKept ns s (some r) h keeps = record {
    held = set-Held idlers set k s.controller ns r h.held keeps;
    build = h.build;
    dc = h.dc;
  }

  in_idler-AllKept :
      (sv : Services) (ns : String) (e : Loop.Event) (s : System idlers set) (r : Option Routine)
      → Sends idlers set k ns e
      → AllKept idlers set k s
      → OnSome (Keeps idlers set k ns) r
      → OnSome (AllKept idlers set k) (in_idler idlers set sv ns e s r)
  unfolding in_idler
  in_idler-AllKept sv ns e s none m h keeps = tt
  in_idler-AllKept sv ns e s (some r) m h keeps =
      put-AllKept ns s (Loop.step sv r e) h (step-Keeps idlers set k ns sv r e m keeps)

  on_build-AllKept :
      (tenant : String → String → Result InfoList) (o : Object) (s : System idlers set)
      (x : Option (String × User))
      → AllKept idlers set k s
      → OnSome (AllKept idlers set k) (on_build idlers set c services tenant o s x)
  unfolding on_build
  on_build-AllKept tenant o s none h =
      handled-AllKept builds s (handle_build idlers set c tenant o s.controller) h
        (handle_build-Leaves idlers set k c tenant o s.controller h.held)
  on_build-AllKept tenant o s (some x) h = tt

  on_dc-AllKept :
      (tenant : String → String → Result InfoList) (o : DcObject) (s : System idlers set)
      (x : Option (String × User))
      → AllKept idlers set k s
      → OnSome (AllKept idlers set k) (on_dc idlers set c services tenant o s x)
  unfolding on_dc
  on_dc-AllKept tenant o s none h =
      handled-AllKept deployments s (handle_deployment_config idlers set c tenant o s.controller) h
        (handle_deployment_config-Leaves idlers set k c tenant o s.controller h.held)
  on_dc-AllKept tenant o s (some x) h = tt

  unsend :
      (w : Watcher) (s : System idlers set)
      → AllKept idlers set k s
      → AllKept idlers set k (set_sending idlers set w none s)
  unsend builds s h = record { held = h.held; build = tt; dc = h.dc }
  unsend deployments s h = record { held = h.held; build = h.build; dc = tt }

  sending-Kept :
      (w : Watcher) (s : System idlers set)
      → AllKept idlers set k s
      → OnSome (SentKept idlers set k) (sending idlers set w s)
  sending-Kept builds s h = h.build
  sending-Kept deployments s h = h.dc

  deliver-AllKept :
      (w : Watcher) (s : System idlers set) (x : Option (String × User))
      → AllKept idlers set k s
      → OnSome (SentKept idlers set k) x
      → OnSome (AllKept idlers set k) (deliver idlers set services w s x)
  unfolding deliver
  deliver-AllKept w s none h sent = tt
  deliver-AllKept w s (some (ns, u)) h sent =
      in_idler-AllKept (services ns) ns (Loop.send u) (set_sending idlers set w none s)
        (idlers.get s.controller.user_idlers ns) sent (unsend w s h) (h.held.at ns)

  give_up-AllKept :
      (w : Watcher) (s : System idlers set) (x : Option (String × User))
      → AllKept idlers set k s
      → OnSome (AllKept idlers set k) (give_up idlers set w s x)
  give_up-AllKept w s none h = tt
  give_up-AllKept w s (some x) h = unsend w s h

  pub step-AllKept :
      (s : System idlers set) (e : Event idlers set)
      → IsAllowed idlers set k e
      → AllKept idlers set k s
      → OnSome (AllKept idlers set k) (step idlers set c services s e)
  unfolding step
  step-AllKept s (build_event tenant o) a h = on_build-AllKept tenant o s s.sending_build h
  step-AllKept s (dc_event tenant o) a h = on_dc-AllKept tenant o s s.sending_dc h
  step-AllKept s (delivered w) a h =
      deliver-AllKept w s (sending idlers set w s) h (sending-Kept w s h)
  step-AllKept s (timed_out w) a h = give_up-AllKept w s (sending idlers set w s) h
  step-AllKept s (users_changed d) a h = record {
    held = record { allowed = a; at = h.held.at };
    build = h.build;
    dc = h.dc;
  }
  step-AllKept s (idler_event ns (Loop.send u)) a h = tt
  step-AllKept s (idler_event ns Loop.receive) a h =
      in_idler-AllKept (services ns) ns Loop.receive s _ tt h (h.held.at ns)
  step-AllKept s (idler_event ns Loop.timer) a h =
      in_idler-AllKept (services ns) ns Loop.timer s _ tt h (h.held.at ns)
  step-AllKept s (idler_event ns Loop.ticker) a h =
      in_idler-AllKept (services ns) ns Loop.ticker s _ tt h (h.held.at ns)
  step-AllKept s (idler_event ns Loop.done) a h =
      in_idler-AllKept (services ns) ns Loop.done s _ tt h (h.held.at ns)

  pub run_from-AllKept :
      (s : System idlers set) (es : List (Event idlers set))
      → All (IsAllowed idlers set k) es
      → AllKept idlers set k s
      → OnSome (AllKept idlers set k) (run idlers set c services s es)
  unfolding run
  run_from-AllKept s [] a h = h
  run_from-AllKept s (e ∷ es) a h = elim (Option-cases (step idlers set c services s e)) [
    | inl stuck ↦ rw (stuck, run) tt
    | inr (s', moved) ↦
        rw (moved, run)
          (run_from-AllKept s' es a.1
            (OnSome-some (AllKept idlers set k) _ s' (step-AllKept s e a.0 h) moved))
  ]

  -- Rules that hold of the set of disabled users at the start, and of every later one, hold in every
  -- state that a run from the controller's start reaches.
  pub run-AllKept :
      (disabled : set.Map) (es : List (Event idlers set)) (s : System idlers set)
      → k.Allowed disabled
      → All (IsAllowed idlers set k) es
      → run idlers set c services (initial idlers set disabled) es ≡ some s
      → AllKept idlers set k s
  unfolding initial
  run-AllKept disabled es s start a h =
      OnSome-some (AllKept idlers set k) _ s
        (run_from-AllKept (initial idlers set disabled) es a (record {
          held = record { allowed = start; at = λ ns. rw (idlers.get-new ns) tt };
          build = tt;
          dc = tt;
        }))
        h

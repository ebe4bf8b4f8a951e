-- ===== src/Controller/Events/Flight.antt =====
-- The sends to one namespace, event by event, while the user of that name is disabled.
use fabric8_jenkins_idler.Common.{
  ℕ, ◌+◌, String, ◌==◌, eq_iff, Bool, Option, none, some, Result, OnSome, ◌≡◌, ◌≢◌, refl, ap, ◌∙◌,
  arith, if◌then◌else◌,
}
use fabric8_jenkins_idler.ConcurrentMap.{ConcurrentMap}
use fabric8_jenkins_idler.Model.{User, Object, DcObject}
use fabric8_jenkins_idler.Tenant.{InfoList}
use fabric8_jenkins_idler.UserIdler.{Services}
use fabric8_jenkins_idler.UserIdler.Loop.{Routine}
use fabric8_jenkins_idler.UserIdler.Loop
use fabric8_jenkins_idler.Controller.Defs.{
  Config, Controller, Outcome, returned, sends, panicked, handle_build, handle_deployment_config,
}
use fabric8_jenkins_idler.Controller.Events.{
  System, Event, Watcher, step, users_changed, build_event, dc_event, delivered, timed_out,
  idler_event, builds, deployments, sending, set_sending, handled, put_routine, in_idler, deliver,
  give_up, on_build, on_dc,
}
use fabric8_jenkins_idler.Controller.Events.Handlers.{Held}
use fabric8_jenkins_idler.Controller.Events.Running.{AllKept}
use fabric8_jenkins_idler.Controller.Events.Sends.{
  named, Elsewhere, Disabled, handle_build-Elsewhere, handle_deployment_config-Elsewhere,
}

-- whether a user is being sent to a namespace, as a number
abbrev pub to : String → Option (String × User) → ℕ
to name none = 0
to name (some (ns, u)) = if ns == name then 1 else 0

module _ (idlers : ConcurrentMap Routine) (set : ConcurrentMap Bool) (name : String) where
  -- the watch goroutines that are sending to the namespace
  abbrev pub in_flight : System idlers set → ℕ
  in_flight s = to name s.sending_build + to name s.sending_dc

  -- whether an event is the end of a send to the namespace, by delivery or by the timeout
  abbrev pub ends_send : System idlers set → Event idlers set → ℕ
  ends_send s (delivered w) = to name (sending idlers set w s)
  ends_send s (timed_out w) = to name (sending idlers set w s)
  ends_send s _ = 0

  module _ (c : Config) (services : String → Services) where
    elsewhere : (ns : String) (u : User) → ns ≢ name → to name (some (ns, u)) ≡ 0
    elsewhere ns u h = ground (arith, eq_iff ns name)

    -- an event that ends a number of sends, and begins none
    abbrev pub BeginsNone : ℕ → System idlers set → System idlers set → Type 0
    BeginsNone n s s' = n + in_flight s' ≡ in_flight s

    handled-build :
        (s : System idlers set) (p : Outcome × Controller idlers set)
        → s.sending_build ≡ none
        → Elsewhere name p.0
        → OnSome (BeginsNone 0 s) (handled idlers set builds s p)
    handled-build s (returned e, k) free h = omega arith
    handled-build s (sends ns u, k) free h = rw (elsewhere ns u h, free) (omega arith)
    handled-build s (panicked, k) free h = tt

    handled-deployment :
        (s : System idlers set) (p : Outcome × Controller idlers set)
        → s.sending_dc ≡ none
        → Elsewhere name p.0
        → OnSome (BeginsNone 0 s) (handled idlers set deployments s p)
    handled-deployment s (returned e, k) free h = omega arith
    handled-deployment s (sends ns u, k) free h = rw (elsewhere ns u h, free) (omega arith)
    handled-deployment s (panicked, k) free h = tt

    put-flight :
        (ns : String) (s : System idlers set) (r : Option Routine)
        → OnSome (λ t. in_flight t ≡ in_flight s) (put_routine idlers set ns s r)
    put-flight ns s none = tt
    put-flight ns s (some r) = refl

    in_idler-flight :
        (sv : Services) (ns : String) (e : Loop.Event) (s : System idlers set) (r : Option Routine)
        → OnSome (λ t. in_flight t ≡ in_flight s) (in_idler idlers set sv ns e s r)
    unfolding in_idler
    in_idler-flight sv ns e s none = tt
    in_idler-flight sv ns e s (some r) = put-flight ns s (Loop.step sv r e)

    sent-flight :
        (w : Watcher) (s : System idlers set)
        → to name (sending idlers set w s) + in_flight (set_sending idlers set w none s)
          ≡ in_flight s
    sent-flight builds s = omega arith
    sent-flight deployments s = omega arith

    OnSome-ends :
        (w : Watcher) (s : System idlers set) (o : Option (System idlers set))
        → OnSome (λ t. in_flight t ≡ in_flight (set_sending idlers set w none s)) o
        → OnSome (BeginsNone (to name (sending idlers set w s)) s) o
    OnSome-ends w s none h = tt
    OnSome-ends w s (some t) h = ap (λ n. to name (sending idlers set w s) + n) h ∙ sent-flight w s

    deliver-flight :
        (w : Watcher) (s : System idlers set) (x : Option (String × User))
        → OnSome
            (λ t. in_flight t ≡ in_flight (set_sending idlers set w none s))
            (deliver idlers set services w s x)
    unfolding deliver
    deliver-flight w s none = tt
    deliver-flight w s (some (ns, u)) =
        in_idler-flight (services ns) ns (Loop.send u) (set_sending idlers set w none s) _

    give_up-flight :
        (w : Watcher) (s : System idlers set) (x : Option (String × User))
        → OnSome
            (λ t. in_flight t ≡ in_flight (set_sending idlers set w none s))
            (give_up idlers set w s x)
    give_up-flight w s none = tt
    give_up-flight w s (some x) = refl

    on_build-flight :
        (tenant : String → String → Result InfoList) (o : Object) (s : System idlers set)
        (x : Option (String × User))
        → s.sending_build ≡ x
        → Held idlers set (named set (Disabled idlers set name)) s.controller
        → OnSome (BeginsNone 0 s) (on_build idlers set c services tenant o s x)
    unfolding on_build
    on_build-flight tenant o s none free h =
        handled-build s (handle_build idlers set c tenant o s.controller) free
          (handle_build-Elsewhere idlers set name c tenant o s.controller h)
    on_build-flight tenant o s (some x) busy h = tt

    on_dc-flight :
        (tenant : String → String → Result InfoList) (o : DcObject) (s : System idlers set)
        (x : Option (String × User))
        → s.sending_dc ≡ x
        → Held idlers set (named set (Disabled idlers set name)) s.controller
        → OnSome (BeginsNone 0 s) (on_dc idlers set c services tenant o s x)
    unfolding on_dc
    on_dc-flight tenant o s none free h =
        handled-deployment s (handle_deployment_config idlers set c tenant o s.controller) free
          (handle_deployment_config-Elsewhere idlers set name c tenant o s.controller h)
    on_dc-flight tenant o s (some x) busy h = tt

    plain-flight :
        (s : System idlers set) (o : Option (System idlers set))
        → OnSome (λ t. in_flight t ≡ in_flight s) o
        → OnSome (BeginsNone 0 s) o
    plain-flight s none h = tt
    plain-flight s (some t) h = omega (arith, h)

    -- While the user is disabled, an event begins no send, and ends the one that it delivers or gives up.
    pub step-flight :
        (s : System idlers set) (e : Event idlers set)
        → AllKept idlers set (named set (Disabled idlers set name)) s
        → OnSome (BeginsNone (ends_send s e) s) (step idlers set c services s e)
    unfolding step
    step-flight s (build_event tenant o) h = on_build-flight tenant o s s.sending_build refl h.held
    step-flight s (dc_event tenant o) h = on_dc-flight tenant o s s.sending_dc refl h.held
    step-flight s (delivered w) h = OnSome-ends w s _ (deliver-flight w s (sending idlers set w s))
    step-flight s (timed_out w) h = OnSome-ends w s _ (give_up-flight w s (sending idlers set w s))
    step-flight s (users_changed d) h = omega arith
    step-flight s (idler_event ns (Loop.send u)) h = tt
    step-flight s (idler_event ns Loop.receive) h =
        plain-flight s _ (in_idler-flight (services ns) ns Loop.receive s _)
    step-flight s (idler_event ns Loop.timer) h =
        plain-flight s _ (in_idler-flight (services ns) ns Loop.timer s _)
    step-flight s (idler_event ns Loop.ticker) h =
        plain-flight s _ (in_idler-flight (services ns) ns Loop.ticker s _)
    step-flight s (idler_event ns Loop.done) h =
        plain-flight s _ (in_idler-flight (services ns) ns Loop.done s _)

-- ===== src/Controller/Events/Steps.antt =====
-- The steps of a build event through the system, for one namespace.
use fabric8_jenkins_idler.Common.{
  String, eq_refl, Bool, true, false, List, [], ◌∷◌, Option, none, some, Result, ◌≡◌, refl, subst,
  ◌∙◌, arith,
}
use fabric8_jenkins_idler.ConcurrentMap.{ConcurrentMap}
use fabric8_jenkins_idler.Model.{User, Object}
use fabric8_jenkins_idler.Model.StringSet
use fabric8_jenkins_idler.Tenant.{InfoList}
use fabric8_jenkins_idler.UserIdler.{Services, check_idle}
use fabric8_jenkins_idler.UserIdler.Loop.{Routine, receive_first}
use fabric8_jenkins_idler.UserIdler.Loop
use fabric8_jenkins_idler.UserIdler.Loop.Laws.{received}
use fabric8_jenkins_idler.Controller.Defs.{Config, sends, handle_build}
use fabric8_jenkins_idler.Controller.Builds.{handle_build_known, recorded, changes, clashes}
use fabric8_jenkins_idler.Controller.Events.{
  System, build_event, delivered, idler_event, builds, in_idler, deliver, on_build, step,
}

-- The routine with users that wait, and when it has received the first of them.
abbrev pub with_queue : Routine → List User → Routine
with_queue r us = record r { queue = us }

abbrev pub after_receive : Services → Routine → User → List User → Routine
after_receive services r v us = record r {
  machine = (check_idle services (received services r v)).1;
  queue = us;
  armed = true;
}

pub receive_step :
    (services : Services) (r : Routine) (v : User) (us : List User)
    → r.running ≡ true
    → Loop.step services (with_queue r (v ∷ us)) Loop.receive ≡ some (after_receive services r v us)
unfolding Loop.step
receive_step services r v us on = rw on refl

module _ (idlers : ConcurrentMap Routine) (set : ConcurrentMap Bool) (c : Config)
    (services : String → Services) (s : System idlers set) (ns : String) where
  -- the system with other user idlers, and with a user that watchBC is sending
  abbrev pub at : idlers.Map → Option (String × User) → System idlers set
  at m x = record s { controller = record s.controller { user_idlers = m }; sending_build = x }

  pub there : (m : idlers.Map) (q : Routine) → idlers.get (idlers.set m ns q) ns ≡ some q
  there m q = rw (idlers.get-set m ns q ns, eq_refl ns) refl

  pub idler_step :
      (m : idlers.Map) (q q' : Routine)
      → idlers.get m ns ≡ some q
      → Loop.step (services ns) q Loop.receive ≡ some q'
      → step idlers set c services (at m none) (idler_event ns Loop.receive)
        ≡ some (at (idlers.set m ns q') none)
  unfolding step in_idler
  idler_step m q q' known h = rw (known, in_idler, h) refl

  pub deliver_step :
      (m : idlers.Map) (q q' : Routine) (v : User)
      → idlers.get m ns ≡ some q
      → Loop.step (services ns) q (Loop.send v) ≡ some q'
      → step idlers set c services (at m (some (ns, v))) (delivered builds)
        ≡ some (at (idlers.set m ns q') none)
  unfolding step deliver in_idler
  deliver_step m q q' v known h = rw (known, in_idler, h) refl

  pub first_send :
      (r : Routine) (v : User)
      → r.queue ≡ []
      → Loop.step (services ns) r (Loop.send v) ≡ some (with_queue r (v ∷ []))
  unfolding Loop.step
  first_send r v waits = ground arith

  -- an event of a build that changes the record of the idler's user
  pub record Recorded (m : idlers.Map) (q : Routine) (o : Object) : Type 0 where
    pub here : o.object.metadata.namespace ≡ ns
    pub known : idlers.get m ns ≡ some q
    pub enabled : StringSet.has set s.controller.disabled_users q.machine.user.name ≡ false
    pub new : changes q.machine.user o.object ≡ true
    pub apart : clashes (recorded q.machine.user o.object) ≡ false

  pub handled :
      (tenant : String → String → Result InfoList) (m : idlers.Map) (q : Routine) (o : Object)
      → Recorded m q o
      → handle_build idlers set c tenant o (at m none).controller
        ≡ (sends ns (recorded q.machine.user o.object), (at m none).controller)
  handled tenant m q o e =
      subst
        (λ n.
          idlers.get m n ≡ some q
          → handle_build idlers set c tenant o (at m none).controller
            ≡ (sends n (recorded q.machine.user o.object), (at m none).controller))
        e.here
        (λ known.
          handle_build_known idlers set c tenant (at m none).controller o q known
          ∙ ground (arith, e.enabled, e.new, e.apart))
        e.known

  pub handle_step :
      (tenant : String → String → Result InfoList) (m : idlers.Map) (q : Routine) (o : Object)
      → Recorded m q o
      → step idlers set c services (at m none) (build_event tenant o)
        ≡ some (at m (some (ns, recorded q.machine.user o.object)))
  unfolding step on_build
  handle_step tenant m q o e = rw (handled tenant m q o e) refl

  pub first_handle :
      (tenant : String → String → Result InfoList) (q : Routine) (o : Object)
      → s.sending_build ≡ none
      → Recorded s.controller.user_idlers q o
      → step idlers set c services s (build_event tenant o)
        ≡ some (at s.controller.user_idlers (some (ns, recorded q.machine.user o.object)))
  unfolding step on_build
  first_handle tenant q o free e = rw (free, handled tenant s.controller.user_idlers q o e) refl

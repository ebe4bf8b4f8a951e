-- ===== src/Controller/Events/Lost.antt =====
-- Two events of one namespace, the second of which comes before the user idler has received the user
-- of the first.
use fabric8_jenkins_idler.Common.{
  String, eq_refl, Bool, true, false, List, [], ◌∷◌, none, some, Result, ◌≡◌, ◌≢◌, refl, ap, ◌∙◌,
  arith,
}
use fabric8_jenkins_idler.ConcurrentMap.{ConcurrentMap}
use fabric8_jenkins_idler.Model.{User, Build, Object}
use fabric8_jenkins_idler.Tenant.{InfoList}
use fabric8_jenkins_idler.UserIdler.{Services}
use fabric8_jenkins_idler.UserIdler.Requests.{check_idle_keeps_builds}
use fabric8_jenkins_idler.UserIdler.Loop.{Routine, receive_first}
use fabric8_jenkins_idler.UserIdler.Loop
use fabric8_jenkins_idler.UserIdler.Loop.Laws.{received}
use fabric8_jenkins_idler.Controller.Defs.{Config, is_active, differs}
use fabric8_jenkins_idler.Controller.Builds.{recorded, with_build, changes}
use fabric8_jenkins_idler.Controller.Events.Steps.{
  at, there, receive_step, idler_step, deliver_step, Recorded, handle_step, with_queue,
  after_receive, first_send, first_handle,
}
use fabric8_jenkins_idler.Controller.Events.{
  System, Event, build_event, delivered, idler_event, builds, step, run,
}

-- the record that an event of a build that is not active leaves has the active build that it had
recorded-active :
    (u : User) (b : Build) → is_active b ≡ false → (recorded u b).active_build ≡ u.active_build
unfolding recorded with_build
recorded-active u b h = ground arith

recorded-done :
    (u : User) (b : Build)
    → is_active b ≡ false
    → changes u b ≡ true
    → (recorded u b).done_build ≡ b
unfolding recorded with_build
recorded-done u b h d = ground arith

-- an active build that changes the record is not the one that it has
changed-active :
    (u : User) (b : Build) → is_active b ≡ true → changes u b ≡ true → u.active_build ≢ b
unfolding changes
changed-active u b h d e =
    let same : differs b b ≡ false =
      ground (arith, eq_refl b.status.phase, eq_refl b.metadata.name) in
    let other : differs u.active_build b ≡ true = ground arith in cc (ap (λ x. differs x b) e)

second_send :
    (services : Services) (r : Routine) (v w : User)
    → Loop.step services (with_queue r (v ∷ [])) (Loop.send w) ≡ some (with_queue r (v ∷ w ∷ []))
unfolding Loop.step
second_send services r v w = refl

module _ (idlers : ConcurrentMap Routine) (set : ConcurrentMap Bool) (c : Config)
    (services : String → Services) (s : System idlers set) (ns : String) where
  -- the events: two builds are handled and delivered, and then both users are received
  abbrev pub two_builds :
      (String → String → Result InfoList) → Object → Object → List (Event idlers set)
  two_builds tenant o p =
      build_event tenant o
      ∷ delivered builds
      ∷ build_event tenant p
      ∷ delivered builds
      ∷ idler_event ns Loop.receive
      ∷ idler_event ns Loop.receive
      ∷ []

  module _ (tenant : String → String → Result InfoList) (r : Routine) (o p : Object)
      (on : r.running ≡ true) (waits : r.queue ≡ []) (free : s.sending_build ≡ none)
      (first : Recorded idlers set c services s ns s.controller.user_idlers r o)
      (second : Recorded idlers set c services s ns s.controller.user_idlers r p) where
    abbrev u : User
    u = r.machine.user

    abbrev v : User
    v = recorded u o.object

    abbrev w : User
    w = recorded u p.object

    abbrev m1 : idlers.Map
    m1 = idlers.set s.controller.user_idlers ns (with_queue r (v ∷ []))

    abbrev m2 : idlers.Map
    m2 = idlers.set m1 ns (with_queue r (v ∷ w ∷ []))

    abbrev m3 : idlers.Map
    m3 = idlers.set m2 ns (after_receive (services ns) r v (w ∷ []))

    abbrev last : Routine
    last = after_receive (services ns) (after_receive (services ns) r v (w ∷ [])) w []

    second_handle :
        step idlers set c services (at idlers set c services s ns m1 none) (build_event tenant p)
        ≡ some (at idlers set c services s ns m1 (some (ns, w)))
    second_handle =
        handle_step idlers set c services s ns tenant m1 (with_queue r (v ∷ [])) p (record {
          here = second.here;
          known = there idlers set c services s ns s.controller.user_idlers (with_queue r (v ∷ []));
          enabled = second.enabled;
          new = second.new;
          apart = second.apart;
        })

    both_received :
        run idlers set c services s (two_builds tenant o p)
        ≡ some (at idlers set c services s ns (idlers.set m3 ns last) none)
    unfolding run
    both_received =
        rw
          (
            run,
            first_handle idlers set c services s ns tenant r o free first,
            deliver_step idlers set c services s ns s.controller.user_idlers r
                (with_queue r (v ∷ [])) v first.known
                (first_send idlers set c services s ns r v waits),
            second_handle,
            deliver_step idlers set c services s ns m1 (with_queue r (v ∷ []))
                (with_queue r (v ∷ w ∷ [])) w
                (there idlers set c services s ns s.controller.user_idlers (with_queue r (v ∷ [])))
                (second_send (services ns) r v w),
            idler_step idlers set c services s ns m2 (with_queue r (v ∷ w ∷ []))
                (after_receive (services ns) r v (w ∷ []))
                (there idlers set c services s ns m1 (with_queue r (v ∷ w ∷ [])))
                (receive_step (services ns) r v (w ∷ []) on),
            idler_step idlers set c services s ns m3 (after_receive (services ns) r v (w ∷ [])) last
                (there idlers set c services s ns m2 (after_receive (services ns) r v (w ∷ [])))
                (receive_step (services ns) (after_receive (services ns) r v (w ∷ [])) w [] on),
          )
          refl

    -- Two builds of a namespace whose idler runs with no user waiting, while no build event is being
    -- sent: an active build, and then one that is not. The user is not disabled, and each build changes
    -- the idler's record and leaves one whose active and done build have different names. If both are
    -- handled and delivered before the idler receives, then, once it has received both users, its done
    -- build is the second build and its active build is that of before, which is not the first build:
    -- the first build is lost.
    pub first_build_lost :
        is_active o.object ≡ true
        → is_active p.object ≡ false
        → (q : System idlers set) × (run idlers set c services s (two_builds tenant o p) ≡ some q)
          × (t : Routine) × (idlers.get q.controller.user_idlers ns ≡ some t)
          × (t.queue ≡ [])
          × (t.machine.user.done_build ≡ p.object)
          × (t.machine.user.active_build ≡ r.machine.user.active_build)
          × (r.machine.user.active_build ≢ o.object)
    first_build_lost active not_active =
        let kept =
          check_idle_keeps_builds (services ns)
            (received (services ns) (after_receive (services ns) r v (w ∷ [])) w) in
        (
          at idlers set c services s ns (idlers.set m3 ns last) none,
          both_received,
          last,
          there idlers set c services s ns m3 last,
          refl,
          kept.1 ∙ recorded-done u p.object not_active second.new,
          kept.0 ∙ recorded-active u p.object not_active,
          changed-active u o.object active first.new,
        )

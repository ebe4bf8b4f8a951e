-- ===== src/Controller/Events/Waking.antt =====
-- From an event of the build stream to the check of the user idler that it wakes.
use fabric8_jenkins_idler.Common.{
  String, ℤ, Bool, true, false, [], ◌∷◌, none, some, Result, ◌≡◌, refl,
}
use fabric8_jenkins_idler.ConcurrentMap.{ConcurrentMap}
use fabric8_jenkins_idler.Model.{Object}
use fabric8_jenkins_idler.Model.StringSet
use fabric8_jenkins_idler.Tenant.{InfoList}
use fabric8_jenkins_idler.UserIdler.{Services, create_watch_conditions, send_un_idle, service_ref}
use fabric8_jenkins_idler.UserIdler.Decision.{after_capacity}
use fabric8_jenkins_idler.UserIdler.Watched.{IsUnIdleTime, watched_exactly}
use fabric8_jenkins_idler.UserIdler.Loop.{Routine, receive_first}
use fabric8_jenkins_idler.UserIdler.Loop
use fabric8_jenkins_idler.UserIdler.Loop.Laws.{received}
use fabric8_jenkins_idler.Controller.Events.Steps.{
  at, there, receive_step, idler_step, deliver_step, Recorded, with_queue, after_receive,
  first_send, first_handle,
}
use fabric8_jenkins_idler.Controller.Defs.{Config}
use fabric8_jenkins_idler.Controller.Builds.{recorded, changes, clashes}
use fabric8_jenkins_idler.Controller.Events.{
  System, build_event, delivered, idler_event, builds, run,
}

-- A build that wakes Jenkins: an event of the build stream for a namespace whose idler runs, with no
-- user waiting, and while no other build event is being sent. If the user is not disabled, the build
-- changes the user's record, and the active and the done build then have different names, and if for
-- the changed record it is time to un-idle Jenkins (the idler is enabled, the builds are not quiet or
-- Jenkins was updated lately, attempts are left, Jenkins is idled and the cluster has room), then the
-- handling of the event, the delivery of the user and its receipt can happen one after the other, and
-- they end with the request to un-idle the user's Jenkins.
pub changed_build_wakes :
    (idlers : ConcurrentMap Routine) (set : ConcurrentMap Bool) (c : Config)
    (services : String → Services) (s : System idlers set)
    (tenant : String → String → Result InfoList) (o : Object) (r : Routine) (a l : ℤ)
    → let ns = o.object.metadata.namespace in
      let v = recorded r.machine.user o.object in
      idlers.get s.controller.user_idlers ns ≡ some r
      → r.running ≡ true
      → r.queue ≡ []
      → s.sending_build ≡ none
      → StringSet.has set s.controller.disabled_users r.machine.user.name ≡ false
      → changes r.machine.user o.object ≡ true
      → clashes v ≡ false
      → r.machine.conditions ≡ create_watch_conditions a l
      → IsUnIdleTime a l (services ns) (received (services ns) r v)
      → (q : System idlers set) × (run idlers set c services s
            (build_event tenant o ∷ delivered builds ∷ idler_event ns Loop.receive ∷ [])
          ≡ some q)
        × (t : Routine) × (idlers.get q.controller.user_idlers ns ≡ some t)
        × (t.machine.calls
            ≡ send_un_idle (service_ref (received (services ns) r v).idler "jenkins")
              ∷ after_capacity (services ns) (received (services ns) r v))
unfolding run
changed_build_wakes idlers set c services s tenant o r a l known on waits free enabled new apart
      watched time =
    let ns = o.object.metadata.namespace in
    let v = recorded r.machine.user o.object in
    let changed : Recorded idlers set c services s ns s.controller.user_idlers r o = record {
      here = refl;
      known = known;
      enabled = enabled;
      new = new;
      apart = apart;
    } in
    let sent = with_queue r (v ∷ []) in
    let woken = after_receive (services ns) r v [] in
    let m = idlers.set s.controller.user_idlers ns sent in
    (
      at idlers set c services s ns (idlers.set m ns woken) none,
      rw
          (
            run,
            first_handle idlers set c services s ns tenant r o free changed,
            deliver_step idlers set c services s ns s.controller.user_idlers r sent v known
                (first_send idlers set c services s ns r v waits),
            idler_step idlers set c services s ns m sent woken
                (there idlers set c services s ns s.controller.user_idlers sent)
                (receive_step (services ns) r v [] on),
          )
          refl,
      woken,
      there idlers set c services s ns m woken,
      (watched_exactly a l (services ns) (received (services ns) r v) watched).1.1 time,
    )

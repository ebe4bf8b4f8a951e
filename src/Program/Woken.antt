-- ===== src/Program/Woken.antt =====
-- From an event of the build stream to the request that OpenShift gets: the handler, the channel, the
-- user idler and the OpenShift client together.
use fabric8_jenkins_idler.Common.{
  String, ℤ, Bool, true, false, [], ◌∷◌, none, some, Result, ◌≡◌, ap, ◌∙◌,
}
use fabric8_jenkins_idler.ConcurrentMap.{ConcurrentMap}
use fabric8_jenkins_idler.Model.{Object}
use fabric8_jenkins_idler.Model.StringSet
use fabric8_jenkins_idler.Tenant.{InfoList}
use fabric8_jenkins_idler.OpenshiftClient.{Request}
use fabric8_jenkins_idler.OpenshiftClient.Scaling.{scale_put, un_idle_sends}
use fabric8_jenkins_idler.UserIdler.{Machine, create_watch_conditions, namespace_of}
use fabric8_jenkins_idler.UserIdler.Decision.{after_capacity}
use fabric8_jenkins_idler.UserIdler.Watched.{IsUnIdleTime}
use fabric8_jenkins_idler.UserIdler.Loop.{Routine}
use fabric8_jenkins_idler.UserIdler.Loop
use fabric8_jenkins_idler.UserIdler.Loop.Laws.{received}
use fabric8_jenkins_idler.Controller.{Config}
use fabric8_jenkins_idler.Controller.Builds.{recorded, changes, clashes}
use fabric8_jenkins_idler.Controller.Events.{
  System, build_event, delivered, idler_event, builds, run,
}
use fabric8_jenkins_idler.Controller.Events.Waking.{changed_build_wakes}
use fabric8_jenkins_idler.Program.Wiring.{Wiring, traffic, connected}

-- the scale of one replica for the Jenkins of an idler, at its API URL with its token
abbrev pub scale_for : Machine → Request
scale_for m = scale_put m.open_shift_api m.open_shift_bearer_token (namespace_of m.idler) "jenkins"

-- A build event that wakes Jenkins, up to OpenShift: an event of the build stream for a namespace whose
-- idler runs, with its clients, with no user waiting, and while no other build event is being sent. If
-- the user is not disabled, the build changes the user's record, and the active and the done build
-- then have different names, if for the changed record it is time to un-idle Jenkins (the idler is
-- enabled, the builds are not quiet or Jenkins was updated lately, attempts are left, Jenkins is idled
-- and the cluster has room), and if http.NewRequest accepts the URL, then the handling of the event,
-- the delivery of the user and its receipt can happen one after the other, and with them the last
-- request that the idler sends to OpenShift is the scale of one replica of the user's Jenkins.
pub build_scales_up :
    (idlers : ConcurrentMap Routine) (set : ConcurrentMap Bool) (c : Config)
    (wiring : String → Wiring) (s : System idlers set) (tenant : String → String → Result InfoList)
    (o : Object) (r : Routine) (a l : ℤ)
    → let ns = o.object.metadata.namespace in
      let w = wiring ns in
      let v = recorded r.machine.user o.object in
      let m = received (connected w) r v in
      idlers.get s.controller.user_idlers ns ≡ some r
      → r.running ≡ true
      → r.queue ≡ []
      → s.sending_build ≡ none
      → StringSet.has set s.controller.disabled_users r.machine.user.name ≡ false
      → changes r.machine.user o.object ≡ true
      → clashes v ≡ false
      → r.machine.conditions ≡ create_watch_conditions a l
      → IsUnIdleTime a l (connected w) m
      → w.openshift.new_request "PUT" (scale_for m).url ≡ none
      → (q : System idlers set) × (run idlers set c
            (λ n. connected (wiring n))
            s
            (build_event tenant o ∷ delivered builds ∷ idler_event ns Loop.receive ∷ [])
          ≡ some q)
        × (t : Routine) × (idlers.get q.controller.user_idlers ns ≡ some t)
        × (traffic w t.machine.calls ≡ scale_for m ∷ traffic w (after_capacity (connected w) m))
unfolding traffic
build_scales_up idlers set c wiring s tenant o r a l known on waits free enabled new apart watched
      time accepted =
    let w = wiring o.object.metadata.namespace in
    let m = received (connected w) r (recorded r.machine.user o.object) in
    let (q, ran, t, there, asked) =
      changed_build_wakes idlers set c (λ n. connected (wiring n)) s tenant o r a l known on waits
        free enabled new apart watched time in
    let sent =
      un_idle_sends m.open_shift_api m.open_shift_bearer_token (namespace_of m.idler) "jenkins"
        w.openshift (traffic w (after_capacity (connected w) m)) accepted in
    (q, ran, t, there, ap (traffic w) asked ∙ sent)

-- ===== src/Program/Disabled.antt =====
-- The timer of a user idler, when the API has disabled its user: from the event to the requests that
-- OpenShift gets.
use fabric8_jenkins_idler.Common.{
  String, Bool, true, false, [], ◌∷◌, some, pos, ok, OnOk, eq_refl, ◌≡◌, refl,
}
use fabric8_jenkins_idler.ConcurrentMap.{ConcurrentMap}
use fabric8_jenkins_idler.Model.StringSet
use fabric8_jenkins_idler.OpenshiftClient.Scaling.{endpoint_patch, config_patch}
use fabric8_jenkins_idler.UserIdler.{check_idle, namespace_of}
use fabric8_jenkins_idler.UserIdler.Decision.{WantsIdle}
use fabric8_jenkins_idler.UserIdler.Loop.{Routine}
use fabric8_jenkins_idler.UserIdler.Loop
use fabric8_jenkins_idler.Controller.{Config}
use fabric8_jenkins_idler.Controller.Events.{
  System, users_changed, idler_event, in_idler, step, run,
}
use fabric8_jenkins_idler.Program.Wiring.{Wiring, traffic, connected}
use fabric8_jenkins_idler.Program.Scaled.{before_idle, check_scales_down}

module _ (idlers : ConcurrentMap Routine) (set : ConcurrentMap Bool) (c : Config)
    (wiring : String → Wiring) (s : System idlers set) (ns : String) (d : set.Map)
    (r : Routine) where
  -- the routine when its timer has fired, and the system with it
  abbrev checked : Routine
  checked = record r { machine = (check_idle (connected (wiring ns)) r.machine).1; armed = false }

  abbrev after : System idlers set
  after = record s {
    controller = record s.controller {
      user_idlers = idlers.set s.controller.user_idlers ns checked;
      disabled_users = d;
    };
  }

  timer_step :
      r.running ≡ true
      → r.armed ≡ true
      → Loop.step (connected (wiring ns)) r Loop.timer ≡ some checked
  unfolding Loop.step
  timer_step on armed = rw (on, armed) refl

  both_events :
      idlers.get s.controller.user_idlers ns ≡ some r
      → r.running ≡ true
      → r.armed ≡ true
      → run idlers set c
          (λ n. connected (wiring n))
          s
          (users_changed d ∷ idler_event ns Loop.timer ∷ [])
        ≡ some after
  unfolding run step in_idler
  both_events known on armed = rw (run, known, in_idler, timer_step on armed) refl

  -- The API disables a user whose idler runs with an armed timer, and then the timer fires. If the
  -- conditions of the idler's check answer idle and Jenkins is up, with attempts left, and if the check
  -- returns nil, then the user is still disabled, and the last two requests that the idler sent to
  -- OpenShift are the patches of the endpoint and of the deployment config of the user's Jenkins; and
  -- OpenShift answered the second with status 200 and a deployment config of 0 replicas.
  pub disabled_scaled_down :
      idlers.get s.controller.user_idlers ns ≡ some r
      → r.running ≡ true
      → r.armed ≡ true
      → StringSet.has set d r.machine.user.name ≡ true
      → let w = wiring ns in
        let m = r.machine in
        let api = m.open_shift_api in
        let token = m.open_shift_bearer_token in
        let before = before_idle w m in
        let endpoint =
          λ (at : String). endpoint_patch api token (namespace_of m.idler) "jenkins" at in
        let config = λ (at : String). config_patch api token (namespace_of m.idler) "jenkins" at in
        WantsIdle (connected w) m
        → (check_idle (connected w) m).0 ≡ ok tt
        → (q : System idlers set) × (run idlers set c
              (λ n. connected (wiring n))
              s
              (users_changed d ∷ idler_event ns Loop.timer ∷ [])
            ≡ some q)
          × (t : Routine) × (idlers.get q.controller.user_idlers ns ≡ some t)
          × (StringSet.has set q.controller.disabled_users m.user.name ≡ true)
          × OnOk (w.openshift.now_text before) (λ at.
            (traffic w t.machine.calls ≡ config at ∷ endpoint at ∷ before)
            × OnOk (w.openshift.respond (endpoint at ∷ before) (config at)) (λ resp.
              (resp.status_code ≡ 200)
              × OnOk resp.body (λ b.
                OnOk (w.openshift.decode_deployment_config b) (λ dc. dc.spec.replicas ≡ pos 0))))
  disabled_scaled_down known on armed disabled wants done = (
    after,
    both_events known on armed,
    checked,
    rw (idlers.get-set s.controller.user_idlers ns checked ns, eq_refl ns) refl,
    disabled,
    check_scales_down (wiring ns) r.machine wants done,
  )

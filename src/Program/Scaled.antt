-- ===== src/Program/Scaled.antt =====
-- From a check of a user idler to the requests that OpenShift gets and confirms.
use fabric8_jenkins_idler.Common.{
  pos, List, ◌∷◌, none, Result, ok, err, OnOk, ◌≡◌, refl, ap, ◌∙◌, arith,
}
use fabric8_jenkins_idler.OpenshiftClient.{Request, idle, un_idle}
use fabric8_jenkins_idler.OpenshiftClient.Scaling.{
  endpoint_patch, config_patch, scale_put, idle_success, un_idle_success,
}
use fabric8_jenkins_idler.UserIdler.{Services, Machine, check_idle, service_ref, namespace_of}
use fabric8_jenkins_idler.UserIdler.Decision.{
  WantsIdle, WantsUnIdle, after_state, after_capacity, idle_if, un_idle_if,
}
use fabric8_jenkins_idler.Program.Wiring.{Wiring, error_of, traffic, connected}

module _ (sv : Services) (m : Machine) where
  idle_result :
      WantsIdle sv m
      → (check_idle sv m).0 ≡ ok tt
      → sv.idle (after_state sv m) (service_ref m.idler "jenkins") ≡ none
  unfolding check_idle
  idle_result w h = ground arith

  un_idle_result :
      WantsUnIdle sv m
      → (check_idle sv m).0 ≡ ok tt
      → sv.un_idle (after_capacity sv m) (service_ref m.idler "jenkins") ≡ none
  unfolding check_idle
  un_idle_result w h = ground arith

no_error : (r : Result (Unit {0})) → error_of r ≡ none → r ≡ ok tt
no_error (ok a) h = refl
no_error (err e) h = cc

module _ (w : Wiring) (m : Machine) where
  -- the requests up to the end of a check
  abbrev pub after_check : List Request
  after_check = traffic w (check_idle (connected w) m).1.calls

  -- those before the request to idle, and before the one to un-idle
  abbrev pub before_idle : List Request
  before_idle = traffic w (after_state (connected w) m)

  abbrev pub before_un_idle : List Request
  before_un_idle = traffic w (after_capacity (connected w) m)

-- A check that is to idle Jenkins and returns nil: the last two requests that OpenShift got are the
-- patch of the endpoint and that of the deployment config of the user's Jenkins, at the idler's API URL
-- with its token and with one time stamp; and OpenShift answered the second with status 200 and a
-- deployment config of 0 replicas.
pub check_scales_down :
    (w : Wiring) (m : Machine)
    → WantsIdle (connected w) m
    → (check_idle (connected w) m).0 ≡ ok tt
    → let api = m.open_shift_api in
      let token = m.open_shift_bearer_token in
      let ns = namespace_of m.idler in
      let before = before_idle w m in
      OnOk (w.openshift.now_text before) (λ at.
        (after_check w m
          ≡ config_patch api token ns "jenkins" at
            ∷ endpoint_patch api token ns "jenkins" at
            ∷ before)
        × OnOk
            (w.openshift.respond
              (endpoint_patch api token ns "jenkins" at ∷ before)
              (config_patch api token ns "jenkins" at))
            (λ resp.
              (resp.status_code ≡ 200)
              × OnOk resp.body (λ b.
                OnOk (w.openshift.decode_deployment_config b) (λ dc. dc.spec.replicas ≡ pos 0))))
unfolding connected
check_scales_down w m wants h =
    let sent = no_error _ (idle_result (connected w) m wants h) in
    let done =
      idle_success m.open_shift_api m.open_shift_bearer_token (namespace_of m.idler) "jenkins"
        w.openshift (before_idle w m) sent in
    let same : after_check w m
        ≡ (idle w.openshift m.open_shift_api m.open_shift_bearer_token (namespace_of m.idler)
            "jenkins" (before_idle w m)).1 =
      ap (traffic w) (idle_if (connected w) m wants) in
    rw same done

-- A check that is to un-idle Jenkins and returns nil: the last request that OpenShift got is the scale
-- of one replica for the user's Jenkins, at the idler's API URL with its token; and OpenShift answered
-- it with status 200 and a scale of one replica.
pub check_scales_up :
    (w : Wiring) (m : Machine)
    → WantsUnIdle (connected w) m
    → (check_idle (connected w) m).0 ≡ ok tt
    → let put =
        scale_put m.open_shift_api m.open_shift_bearer_token (namespace_of m.idler) "jenkins" in
      (after_check w m ≡ put ∷ before_un_idle w m)
      × OnOk (w.openshift.respond (before_un_idle w m) put) (λ resp.
        (resp.status_code ≡ 200)
        × OnOk resp.body (λ b. OnOk (w.openshift.decode_scale b) (λ s. s.replicas ≡ pos 1)))
unfolding connected
check_scales_up w m wants h =
    let sent = no_error _ (un_idle_result (connected w) m wants h) in
    let done =
      un_idle_success m.open_shift_api m.open_shift_bearer_token (namespace_of m.idler) "jenkins"
        w.openshift (before_un_idle w m) sent in
    let same : after_check w m
        ≡ (un_idle w.openshift m.open_shift_api m.open_shift_bearer_token (namespace_of m.idler)
            "jenkins" (before_un_idle w m)).1 =
      ap (traffic w) (un_idle_if (connected w) m wants) in
    (same ∙ done.0, done.1)

-- ===== src/UserIdler/Decision.antt =====
-- When a check sends a request: the decision of checkIdle, doIdle and doUnIdle in full.
use fabric8_jenkins_idler.Common.{
  GoError, pos, ◌≤ℤ◌, ◌<ℤ◌, true, false, List, ◌∷◌, Result, ok, err, ◌≡◌, ◌⊎◌, inl, inr, ap, arith,
}
use fabric8_jenkins_idler.Util.{empty}
use fabric8_jenkins_idler.Model.{PodState, pod_idled, new_idle_status, new_unidle_status}
use fabric8_jenkins_idler.Condition.{Action, idle, un_idle, user, eval}
use fabric8_jenkins_idler.UserIdler.Interfaces.{
  Call, ask_enabled, ask_state, ask_capacity, send_idle, send_un_idle, Services,
}
use fabric8_jenkins_idler.UserIdler.Defs.{Machine, check_idle, service_ref, namespace_of}
use fabric8_jenkins_idler.UserIdler.Requests.{idle_requests, un_idle_requests}

-- the answer to a State call is above `PodIdled`
abbrev pub IsUp : Result PodState → Type 0
IsUp (ok p) = pod_idled <ℤ p
IsUp (err e) = ⊥

abbrev pub IsDown : Result PodState → Type 0
IsDown (ok p) = p ≡ pod_idled
IsDown (err e) = ⊥

module _ (sv : Services) (m : Machine) where
  -- the calls before the State call, and before the capacity call
  abbrev pub after_enabled : List Call
  after_enabled = ask_enabled m.user.id ∷ m.calls

  abbrev pub after_state : List Call
  after_state = ask_state (service_ref m.idler "jenkins") ∷ after_enabled

  abbrev pub after_capacity : List Call
  after_capacity = ask_capacity m.open_shift_api (namespace_of m.idler) ∷ after_state

  -- The idler is enabled, and the conditions agree on an action without an error.
  abbrev pub Decides : Action → Type 0
  Decides a =
      (sv.is_idler_enabled m.calls m.user.id ≡ ok true)
      × ((eval (sv.outside after_enabled) m.conditions (user m.user)).0 ≡ a)
      × (empty (eval (sv.outside after_enabled) m.conditions (user m.user)).1 ≡ true)

  pub record WantsIdle : Type 0 where
    pub decides : Decides idle
    pub room : pos m.idle_attempts <ℤ m.max_retries
    pub up : IsUp (sv.state after_enabled (service_ref m.idler "jenkins"))

  pub record WantsUnIdle : Type 0 where
    pub decides : Decides un_idle
    pub room : pos m.un_idle_attempts <ℤ m.max_retries
    pub down : IsDown (sv.state after_enabled (service_ref m.idler "jenkins"))
    pub capacity :
        sv.has_reached_max_capacity after_state m.open_shift_api (namespace_of m.idler) ≡ ok false

  pub idle_if :
      WantsIdle
      → (check_idle sv m).1.calls ≡ send_idle (service_ref m.idler "jenkins") ∷ after_state
  unfolding check_idle
  idle_if w = ground arith

  idle_only_if : (idle_requests (check_idle sv m).1.calls ≡ idle_requests m.calls) ⊎ WantsIdle
  unfolding check_idle
  idle_only_if = ground arith

  pub un_idle_if :
      WantsUnIdle
      → (check_idle sv m).1.calls ≡ send_un_idle (service_ref m.idler "jenkins") ∷ after_capacity
  unfolding check_idle
  un_idle_if w = ground arith

  un_idle_only_if :
      (un_idle_requests (check_idle sv m).1.calls ≡ un_idle_requests m.calls) ⊎ WantsUnIdle
  unfolding check_idle
  un_idle_only_if = ground arith

-- A check asks OpenShift to idle Jenkins exactly when the user's idler is enabled, the conditions
-- answer `idle` with no error, attempts are left, and Jenkins is above the idled state; it then does
-- so as its third and last call. In every other case it sends no such request.
pub check_idle_idles :
    (sv : Services) (m : Machine)
    → (WantsIdle sv m
        × ((check_idle sv m).1.calls
            ≡ send_idle (service_ref m.idler "jenkins") ∷ after_state sv m))
      ⊎ ((¬ WantsIdle sv m) × (idle_requests (check_idle sv m).1.calls ≡ idle_requests m.calls))
check_idle_idles sv m = elim (idle_only_if sv m) [
  | inl same ↦ inr ((λ w. absurd (omega (arith, ap idle_requests (idle_if sv m w)))), same)
  | inr w ↦ inl (w, idle_if sv m w)
]

-- A check asks OpenShift to un-idle Jenkins exactly when the user's idler is enabled, the conditions
-- answer `un_idle` with no error, attempts are left, Jenkins is in the idled state and the cluster
-- has room; it then does so as its fourth and last call. In every other case it sends none.
pub check_idle_un_idles :
    (sv : Services) (m : Machine)
    → (WantsUnIdle sv m
        × ((check_idle sv m).1.calls
            ≡ send_un_idle (service_ref m.idler "jenkins") ∷ after_capacity sv m))
      ⊎ ((¬ WantsUnIdle sv m)
          × (un_idle_requests (check_idle sv m).1.calls ≡ un_idle_requests m.calls))
check_idle_un_idles sv m = elim (un_idle_only_if sv m) [
  | inl same ↦ inr ((λ w. absurd (omega (arith, ap un_idle_requests (un_idle_if sv m w)))), same)
  | inr w ↦ inl (w, un_idle_if sv m w)
]

-- A check that returns an error leaves the user record as it was.
pub check_idle_error_keeps_user :
    (sv : Services) (m : Machine) {e : GoError}
    → (check_idle sv m).0 ≡ err e
    → (check_idle sv m).1.user ≡ m.user
unfolding check_idle
check_idle_error_keeps_user sv m h = ground arith

-- Once the attempts are used up, a check whose conditions answer `idle` asks only whether the idler
-- is enabled, sends no request, and still records in the user that Jenkins was idled.
pub check_idle_capped :
    (sv : Services) (m : Machine)
    → Decides sv m idle
    → m.max_retries ≤ℤ pos m.idle_attempts
    → ((check_idle sv m).0 ≡ ok tt)
      × ((check_idle sv m).1.calls ≡ after_enabled sv m)
      × ((check_idle sv m).1.user.idle_status ≡ record {
        timestamp = sv.now (after_enabled sv m);
        success = true;
        reason = "Successfully idled";
      })
unfolding check_idle new_idle_status
check_idle_capped sv m d h = ground arith

-- No check ever records a failure: it leaves the status as it was, or sets a success.
pub check_idle_status :
    (sv : Services) (m : Machine)
    → ((check_idle sv m).1.user.idle_status ≡ m.user.idle_status)
      ⊎ ((check_idle sv m).1.user.idle_status.success ≡ true)
unfolding check_idle new_idle_status new_unidle_status
check_idle_status sv m = ground arith

-- ===== src/Api/Timed.antt =====
-- internal/api/api.go: the loops of Idle and UnIdle with the recorder of durations, and what it has
-- recorded when they end.
use fabric8_jenkins_idler.Common.{
  String, GoError, ℕ, ◌==◌, eq_iff, Option-cases, inl, inr, ◌+◌, nat_beq, pos, Bool, false, List,
  [], ◌∷◌, Option, none, some, length, All, ◌≡◌, ◌≢◌, refl, ◌∙◌, arith, if◌then◌else◌,
}
use fabric8_jenkins_idler.Http.{status_ok}
use fabric8_jenkins_idler.UserIdler.{ServiceRef, Call, send_idle, send_un_idle, Services}
use fabric8_jenkins_idler.Cluster.{Cluster}
use fabric8_jenkins_idler.Metric.{
  Observation, report_request_duration, code_val, code_val-ok, code_val-internal_server_error,
}
use fabric8_jenkins_idler.Api.{
  Reply, header, respond_with_error, status_internal_server_error, jenkins_ref, idle_all,
  un_idle_all,
}

-- `elapsed` is how long the call after those of the list took, in seconds.
module _ {F : Type 0} (is_zero : F → Bool) (elapsed : List Call → F) where
  -- what a loop leaves: its reply, the calls and the observations, both newest first
  abbrev pub Timed : Type 0
  Timed = Reply × List Call × List (Observation F)

  abbrev after_call :
      (ℕ → List (Observation F))
      → Option GoError
      → (List Call → List (Observation F) → Timed)
      → List Call
      → Timed
  after_call report (some e) next h =
      (respond_with_error status_internal_server_error e, h, report status_internal_server_error)
  after_call report none next h = next h (report status_ok)

  -- a loop over the services, by the name of the operation, the client's answer and its call
  unfoldable pub timed_all :
      String
      → (List Call → ServiceRef → Option GoError)
      → (ServiceRef → Call)
      → String
      → String
      → String
      → List String
      → List Call
      → List (Observation F)
      → Timed
  timed_all operation answer call url token ns [] h os = (header status_ok, h, os)
  timed_all operation answer call url token ns (service ∷ services) h os =
      let ref = jenkins_ref url token ns service in
      after_call
        (λ code. report_request_duration is_zero service operation (pos code) (elapsed h) os)
        (answer h ref) (timed_all operation answer call url token ns services) (call ref ∷ h)

  unfoldable pub idle_timed :
      Services → String → String → String → List String → List Call → List (Observation F) → Timed
  unfolding timed_all
  idle_timed sv = timed_all "Idle" sv.idle send_idle

  unfoldable pub un_idle_timed :
      Services → String → String → String → List String → List Call → List (Observation F) → Timed
  unfolding timed_all
  un_idle_timed sv = timed_all "UnIdle" sv.un_idle send_un_idle

  -- the observations of the class 5xx
  unfoldable pub failures : List (Observation F) → ℕ
  failures [] = 0
  failures (o ∷ os) = (if o.code == "5xx" then 1 else 0) + failures os

  -- A loop that replies observes each of its calls once, and one more failure unless it replies 200.
  pub record IsObserved (t : Timed) (h : List Call) (os : List (Observation F)) : Type 0 where
    pub each : length t.2 + length h ≡ length os + length t.1
    pub failed : failures t.2 ≡ failures os + (if nat_beq t.0.code status_ok then 0 else 1)

  observed :
      (service operation : String) (n : ℕ) (e : F) (os : List (Observation F))
      → service ≢ ""
      → operation ≢ ""
      → nat_beq n 0 ≡ false
      → is_zero e ≡ false
      → report_request_duration is_zero service operation (pos n) e os
        ≡ (record {
          service = service;
          operation = operation;
          code = code_val (pos n);
          elapsed_time = e;
        })
          ∷ os
  unfolding report_request_duration
  observed service operation n e os known named code long =
      ground (arith, code, long, eq_iff service "", eq_iff operation "")

  -- an answered call goes before the rest of the loop, and a call with an error ends it
  IsObserved-rest :
      (t : Timed) (c : Call) (h : List Call) (o : Observation F) (os : List (Observation F))
      → o.code ≡ "2xx"
      → IsObserved t (c ∷ h) (o ∷ os)
      → IsObserved t h os
  unfolding failures
  IsObserved-rest t c h o os code rest = record {
    each = omega (arith, rest.each);
    failed = rest.failed ∙ rw code (omega arith);
  }

  IsObserved-error :
      (e : GoError) (c : Call) (h : List Call) (o : Observation F) (os : List (Observation F))
      → o.code ≡ "5xx"
      → IsObserved (respond_with_error status_internal_server_error e, c ∷ h, o ∷ os) h os
  unfolding failures
  IsObserved-error e c h o os code = record { each = omega arith; failed = rw code (omega arith) }

  timed_all-IsObserved :
      (operation : String) (answer : List Call → ServiceRef → Option GoError)
      (call : ServiceRef → Call) (url token ns : String) (services : List String) (h : List Call)
      (os : List (Observation F))
      → operation ≢ ""
      → All (λ s. s ≢ "") services
      → ((l : List Call) → is_zero (elapsed l) ≡ false)
      → IsObserved (timed_all operation answer call url token ns services h os) h os
  unfolding timed_all
  timed_all-IsObserved operation answer call url token ns [] h os named all long = record {
    each = refl;
    failed = omega arith;
  }
  timed_all-IsObserved operation answer call url token ns (service ∷ services) h os named all long =
      let ref = jenkins_ref url token ns service in
      let seen = λ (n : ℕ) (code : nat_beq n 0 ≡ false).
        observed service operation n (elapsed h) os all.0 named code (long h) in
      elim (Option-cases (answer h ref)) [
        | inl e ↦
            rw (e, seen status_ok refl)
              (IsObserved-rest _ (call ref) h _ os code_val-ok (
                timed_all-IsObserved operation answer call url token ns services (call ref ∷ h) _
                  named all.1 long))
        | inr (x, e) ↦
            rw (e, seen status_internal_server_error refl)
              (IsObserved-error x (call ref) h _ os code_val-internal_server_error)
      ]

  -- The loops of the handlers, but for the observations: they are `idle_all` and `un_idle_all`.
  idle_timed-same :
      (sv : Services) (clusters : List Cluster) (url token ns : String) (services : List String)
      (h : List Call) (os : List (Observation F))
      → let t = idle_timed sv url token ns services h os in
        (t.0, t.1) ≡ idle_all sv clusters url token ns services h
  unfolding idle_timed timed_all idle_all
  idle_timed-same sv clusters url token ns [] h os = refl
  idle_timed-same sv clusters url token ns (service ∷ services) h os =
      elim (Option-cases (sv.idle h (jenkins_ref url token ns service))) [
        | inl e ↦ rw e (idle_timed-same sv clusters url token ns services _ _)
        | inr (x, e) ↦ rw e refl
      ]

  un_idle_timed-same :
      (sv : Services) (clusters : List Cluster) (url token ns : String) (services : List String)
      (h : List Call) (os : List (Observation F))
      → let t = un_idle_timed sv url token ns services h os in
        (t.0, t.1) ≡ un_idle_all sv clusters url token ns services h
  unfolding un_idle_timed timed_all un_idle_all
  un_idle_timed-same sv clusters url token ns [] h os = refl
  un_idle_timed-same sv clusters url token ns (service ∷ services) h os =
      elim (Option-cases (sv.un_idle h (jenkins_ref url token ns service))) [
        | inl e ↦ rw e (un_idle_timed-same sv clusters url token ns services _ _)
        | inr (x, e) ↦ rw e refl
      ]

  -- The loops of Idle and of UnIdle with the recorder have the reply and the calls of the loops
  -- without it, for any services. If no service has the empty name and no call takes a time of zero,
  -- then each call is observed once, and the observations have one more of the class 5xx exactly if
  -- the reply is not 200.
  pub calls-IsObserved :
      (sv : Services) (clusters : List Cluster) (url token ns : String) (services : List String)
      (h : List Call) (os : List (Observation F))
      → All (λ s. s ≢ "") services
      → ((l : List Call) → is_zero (elapsed l) ≡ false)
      → let i = idle_timed sv url token ns services h os in
        let u = un_idle_timed sv url token ns services h os in
        (((i.0, i.1) ≡ idle_all sv clusters url token ns services h) × IsObserved i h os)
        × ((u.0, u.1) ≡ un_idle_all sv clusters url token ns services h)
        × IsObserved u h os
  unfolding idle_timed un_idle_timed
  calls-IsObserved sv clusters url token ns services h os all long = (
    (
      idle_timed-same sv clusters url token ns services h os,
      timed_all-IsObserved "Idle" sv.idle send_idle url token ns services h os
          (λ e. ground (arith, eq_iff "Idle" "")) all long,
    ),
    un_idle_timed-same sv clusters url token ns services h os,
    timed_all-IsObserved "UnIdle" sv.un_idle send_un_idle url token ns services h os
        (λ e. ground (arith, eq_iff "UnIdle" "")) all long,
  )

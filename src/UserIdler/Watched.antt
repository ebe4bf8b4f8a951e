-- ===== src/UserIdler/Watched.antt =====
-- A check with the two conditions that NewUserIdler sets up: when it idles or un-idles Jenkins, by the
-- user's builds, the last update of Jenkins and the clock.
use fabric8_jenkins_idler.Common.{
  false, String, Time, ℤ, pos, ◌<ℤ◌, ◌≤◌, mul64, minute, hour, add_duration, true, [], ◌∷◌, ok, ◌≡◌,
  ◌≢◌, ◌⊎◌, ◌↔◌, inl, inr, refl, sym, ap, ◌∙◌, arith,
}
use fabric8_jenkins_idler.Model.{User}
use fabric8_jenkins_idler.Util.{empty, collect}
use fabric8_jenkins_idler.Condition.{
  Action, no_action, idle, un_idle, user, Outside, BuildCondition, DcCondition, build_action,
  dc_action, raise, eval, eval_loop, eval_one, build_eval, dc_eval, add,
}
use fabric8_jenkins_idler.Condition.Builds.{
  IsQuiet, build_action_exact, build_action-decides, dc_action_exact,
}
use fabric8_jenkins_idler.UserIdler.Interfaces.{Services, send_idle, send_un_idle}
use fabric8_jenkins_idler.UserIdler.Defs.{
  Machine, check_idle, create_watch_conditions, service_ref, namespace_of,
}
use fabric8_jenkins_idler.UserIdler.Requests.{idle_requests, un_idle_requests}
use fabric8_jenkins_idler.UserIdler.Decision.{
  WantsIdle, WantsUnIdle, IsUp, IsDown, after_enabled, after_state, after_capacity,
  check_idle_idles, check_idle_un_idles, idle_if, un_idle_if,
}

raise-none : (x : Action) → raise no_action x ≡ x
raise-none no_action = refl
raise-none idle = refl
raise-none un_idle = refl

module _ (a l : ℤ) where
  abbrev pub watched_build : BuildCondition
  watched_build = record { idle_after = mul64 a minute; idle_long_build = mul64 l hour }

  abbrev pub watched_dc : DcCondition
  watched_dc = record { idle_after = mul64 a minute }

  -- the two conditions together: the greater action, and no error
  eval-watched :
      (o : Outside) (u : User)
      → eval o (create_watch_conditions a l) (user u) ≡ (
        raise
            (dc_action watched_dc (o.clock "dc") u)
            (build_action watched_build (o.clock "build") u),
        [],
      )
  unfolding eval create_watch_conditions add eval_loop eval_one build_eval dc_eval build_action
      dc_action collect
  eval-watched o u = ground arith

-- The greater of two actions, the second of which is `idle` or `un_idle`.
raise-idle : (x y : Action) → y ≢ no_action → (raise x y ≡ idle) ↔ ((y ≡ idle) × (x ≢ un_idle))
raise-idle x no_action h = absurd (h refl)
raise-idle no_action idle h = ((λ e. (refl, λ f. cc)), λ e. refl)
raise-idle idle idle h = ((λ e. (refl, λ f. cc)), λ e. refl)
raise-idle un_idle idle h = ((λ e. cc), λ e. absurd (e.1 refl))
raise-idle no_action un_idle h = ((λ e. cc), λ e. cc e.0)
raise-idle idle un_idle h = ((λ e. cc), λ e. cc e.0)
raise-idle un_idle un_idle h = ((λ e. cc), λ e. cc e.0)

raise-un_idle : (x y : Action) → (raise x y ≡ un_idle) ↔ ((y ≡ un_idle) ⊎ (x ≡ un_idle))
raise-un_idle no_action no_action = (λ e. cc, λ e. elim e [ inl f ↦ cc | inr f ↦ cc ])
raise-un_idle no_action idle = (λ e. cc, λ e. elim e [ inl f ↦ cc | inr f ↦ cc ])
raise-un_idle no_action un_idle = (λ e. inl refl, λ e. refl)
raise-un_idle idle no_action = (λ e. cc, λ e. elim e [ inl f ↦ cc | inr f ↦ cc ])
raise-un_idle idle idle = (λ e. cc, λ e. elim e [ inl f ↦ cc | inr f ↦ cc ])
raise-un_idle idle un_idle = (λ e. inl refl, λ e. refl)
raise-un_idle un_idle no_action = (λ e. inr refl, λ e. refl)
raise-un_idle un_idle idle = (λ e. inr refl, λ e. refl)
raise-un_idle un_idle un_idle = (λ e. inl refl, λ e. refl)

module _ (a l : ℤ) (sv : Services) (m : Machine) where
  -- the clock at the evaluation of a condition
  abbrev pub now_at : String → Time
  now_at name = (sv.outside (after_enabled sv m)).clock name

  abbrev pub Quiet : Type 0
  Quiet = IsQuiet (watched_build a l) (now_at "build") m.user

  -- Jenkins was updated, and not longer ago than `idle_after`.
  abbrev pub Updated : Type 0
  Updated =
      (m.user.jenkins_last_update ≢ 0)
      × (now_at "dc" ≤ add_duration m.user.jenkins_last_update (mul64 a minute))

  abbrev pub Enabled : Type 0
  Enabled = sv.is_idler_enabled m.calls m.user.id ≡ ok true

  -- Jenkins is to be idled, and can be
  pub record IsIdleTime : Type 0 where
    pub enabled : Enabled
    pub quiet : Quiet
    pub not_updated : ¬ Updated
    pub room : pos m.idle_attempts <ℤ m.max_retries
    pub up : IsUp (sv.state (after_enabled sv m) (service_ref m.idler "jenkins"))

  pub record IsUnIdleTime : Type 0 where
    pub enabled : Enabled
    pub needed : (¬ Quiet) ⊎ Updated
    pub room : pos m.un_idle_attempts <ℤ m.max_retries
    pub down : IsDown (sv.state (after_enabled sv m) (service_ref m.idler "jenkins"))
    pub capacity :
        sv.has_reached_max_capacity (after_state sv m) m.open_shift_api (namespace_of m.idler)
        ≡ ok false

  module _ (watched : m.conditions ≡ create_watch_conditions a l) where
    decided : eval (sv.outside (after_enabled sv m)) m.conditions (user m.user) ≡ (
      raise
          (dc_action (watched_dc a l) (now_at "dc") m.user)
          (build_action (watched_build a l) (now_at "build") m.user),
      [],
    )
    decided =
        ap (λ cs. eval (sv.outside (after_enabled sv m)) cs (user m.user)) watched
        ∙ eval-watched a l (sv.outside (after_enabled sv m)) m.user

    no_errors : empty (eval (sv.outside (after_enabled sv m)) m.conditions (user m.user)).1 ≡ true
    unfolding empty
    no_errors = ap (λ v. empty v.1) decided

    acts : build_action (watched_build a l) (now_at "build") m.user ≢ no_action
    acts = build_action-decides (watched_build a l) (now_at "build") m.user

    WantsIdle-IsIdleTime : WantsIdle sv m → IsIdleTime
    WantsIdle-IsIdleTime w =
        let asked = sym (ap (λ v. v.0) decided) ∙ w.decides.1 in
        let (build_idle, dc_not) = (raise-idle _ _ acts).0 asked in
        let dc = dc_action_exact (watched_dc a l) (now_at "dc") m.user in
        record {
          enabled = w.decides.0;
          quiet = (build_action_exact (watched_build a l) (now_at "build") m.user).0.0 build_idle;
          not_updated = λ updated. dc_not (dc.2.1 updated);
          room = w.room;
          up = w.up;
        }

    IsIdleTime-WantsIdle : IsIdleTime → WantsIdle sv m
    IsIdleTime-WantsIdle t =
        let dc = dc_action_exact (watched_dc a l) (now_at "dc") m.user in
        let build_idle =
          (build_action_exact (watched_build a l) (now_at "build") m.user).0.1 t.quiet in
        let asked = (raise-idle _ _ acts).1 (build_idle, λ e. t.not_updated (dc.2.0 e)) in
        record {
          decides = (t.enabled, ap (λ v. v.0) decided ∙ asked, no_errors);
          room = t.room;
          up = t.up;
        }

    WantsUnIdle-IsUnIdleTime : WantsUnIdle sv m → IsUnIdleTime
    WantsUnIdle-IsUnIdleTime w =
        let asked = sym (ap (λ v. v.0) decided) ∙ w.decides.1 in
        let dc = dc_action_exact (watched_dc a l) (now_at "dc") m.user in
        let build = build_action_exact (watched_build a l) (now_at "build") m.user in
        record {
          enabled = w.decides.0;
          needed = elim ((raise-un_idle _ _).0 asked) [
            | inl b ↦ inl (build.1.0 b)
            | inr d ↦ inr (dc.2.0 d)
          ];
          room = w.room;
          down = w.down;
          capacity = w.capacity;
        }

    IsUnIdleTime-WantsUnIdle : IsUnIdleTime → WantsUnIdle sv m
    IsUnIdleTime-WantsUnIdle t =
        let dc = dc_action_exact (watched_dc a l) (now_at "dc") m.user in
        let build = build_action_exact (watched_build a l) (now_at "build") m.user in
        let wanted : (build_action (watched_build a l) (now_at "build") m.user ≡ un_idle)
            ⊎ (dc_action (watched_dc a l) (now_at "dc") m.user ≡ un_idle) =
          elim t.needed [ inl b ↦ inl (build.1.1 b) | inr d ↦ inr (dc.2.1 d) ] in
        record {
          decides = (t.enabled, ap (λ v. v.0) decided ∙ (raise-un_idle _ _).1 wanted, no_errors);
          room = t.room;
          down = t.down;
          capacity = t.capacity;
        }

-- What a check of a user idler with the conditions of NewUserIdler does. It asks OpenShift to idle
-- Jenkins exactly when: the idler is enabled; the builds are quiet by the build condition (there are
-- none, or the active one is overlong or new with a completion, or the done one was cancelled or is
-- `idle_after` old); Jenkins was not updated within `idle_after`; attempts are left; and Jenkins is above
-- the idled state. It asks to un-idle Jenkins exactly when: the idler is enabled; the builds are not
-- quiet, or Jenkins was updated within `idle_after`; attempts are left; Jenkins is in the idled state;
-- and the cluster has room. Each request is the last call of its check. So the builds and the update of
-- Jenkins decide alone: webhook requests that the Jenkins Proxy holds, and visits of the UI, have no
-- part in it.
pub watched_exactly :
    (a l : ℤ) (sv : Services) (m : Machine)
    → m.conditions ≡ create_watch_conditions a l
    → (((check_idle sv m).1.calls ≡ send_idle (service_ref m.idler "jenkins") ∷ after_state sv m)
        ↔ IsIdleTime a l sv m)
      × (((check_idle sv m).1.calls
            ≡ send_un_idle (service_ref m.idler "jenkins") ∷ after_capacity sv m)
          ↔ IsUnIdleTime a l sv m)
watched_exactly a l sv m watched = (
  (
    λ h. elim (check_idle_idles sv m) [
      | inl (w, _) ↦ WantsIdle-IsIdleTime a l sv m watched w
      | inr (_, same) ↦ absurd (omega (arith, ap idle_requests h, same))
    ],
    λ t. idle_if sv m (IsIdleTime-WantsIdle a l sv m watched t),
  ),
  (
    λ h. elim (check_idle_un_idles sv m) [
      | inl (w, _) ↦ WantsUnIdle-IsUnIdleTime a l sv m watched w
      | inr (_, same) ↦ absurd (omega (arith, ap un_idle_requests h, same))
    ],
    λ t. un_idle_if sv m (IsUnIdleTime-WantsUnIdle a l sv m watched t),
  ),
)

-- ===== src/Controller/Events/Disabled.antt =====
-- Disabled users: what is sent to the idler of a user while the user is in the set.
use fabric8_jenkins_idler.Common.{
  ℕ, ◌+◌, ◌≤◌, String, Bool, true, false, List, [], ◌∷◌, All, ok, Option, none, some, OnSome,
  OnSome-some, ◌≡◌, ap, ◌∙◌, arith, inl, inr, Option-cases,
}
use fabric8_jenkins_idler.ConcurrentMap.{ConcurrentMap}
use fabric8_jenkins_idler.Model.{User}
use fabric8_jenkins_idler.Model.StringSet
use fabric8_jenkins_idler.Api.{UserStatus, set_user_idler_status}
use fabric8_jenkins_idler.Api.Laws.{set_user_idler_status-has}
use fabric8_jenkins_idler.Util.{contains_string}
use fabric8_jenkins_idler.UserIdler.{Services}
use fabric8_jenkins_idler.UserIdler.Loop.{Routine}
use fabric8_jenkins_idler.Controller.Defs.{Config}
use fabric8_jenkins_idler.Controller.Events.{
  System, Event, run, step, initial, users_changed, build_event, dc_event, delivered, timed_out,
  idler_event,
}
use fabric8_jenkins_idler.Controller.Events.Kept.{Keeps}
use fabric8_jenkins_idler.Controller.Events.Running.{AllKept, IsAllowed, run-AllKept, step-AllKept}
use fabric8_jenkins_idler.Controller.Events.Sends.{named, Disabled}
use fabric8_jenkins_idler.Controller.Events.Flight.{
  to, in_flight, ends_send, BeginsNone, step-flight,
}

module _ (idlers : ConcurrentMap Routine) (set : ConcurrentMap Bool) (name : String) where
  -- the API changes the set to one that still has the name
  abbrev pub StaysDisabled : Event idlers set → Type 0
  StaysDisabled (users_changed d) = StringSet.has set d name ≡ true
  StaysDisabled _ = Unit

  StaysDisabled-IsAllowed :
      (e : Event idlers set)
      → StaysDisabled e
      → IsAllowed idlers set (named set (Disabled idlers set name)) e
  StaysDisabled-IsAllowed (users_changed d) h = h
  StaysDisabled-IsAllowed (build_event tenant o) h = tt
  StaysDisabled-IsAllowed (dc_event tenant o) h = tt
  StaysDisabled-IsAllowed (delivered w) h = tt
  StaysDisabled-IsAllowed (timed_out w) h = tt
  StaysDisabled-IsAllowed (idler_event ns e) h = tt

  -- every set of disabled users is allowed
  any_set : (es : List (Event idlers set)) → All (IsAllowed idlers set (named set (λ d. Unit))) es
  any_set [] = tt
  any_set (users_changed d ∷ es) = (tt, any_set es)
  any_set (build_event tenant o ∷ es) = (tt, any_set es)
  any_set (dc_event tenant o ∷ es) = (tt, any_set es)
  any_set (delivered w ∷ es) = (tt, any_set es)
  any_set (timed_out w ∷ es) = (tt, any_set es)
  any_set (idler_event ns e ∷ es) = (tt, any_set es)

  -- the names of the users do not depend on the sets that are allowed
  kept-named :
      (allowed : set.Map → Type 0) (ns : String) (o : Option Routine)
      → OnSome (Keeps idlers set (named set (λ d. Unit)) ns) o
      → OnSome (Keeps idlers set (named set allowed) ns) o
  kept-named allowed ns none h = tt
  kept-named allowed ns (some r) h = record { own = h.own; queued = h.queued }

  -- the system when the API has changed the set of disabled users
  abbrev pub with_disabled : set.Map → System idlers set → System idlers set
  with_disabled d s = record s { controller = record s.controller { disabled_users = d } }

  Disabled-AllKept :
      (s : System idlers set) (d : set.Map)
      → Disabled idlers set name d
      → AllKept idlers set (named set (λ d. Unit)) s
      → AllKept idlers set (named set (Disabled idlers set name)) (with_disabled d s)
  Disabled-AllKept s d disabled h = record {
    held = record {
      allowed = disabled;
      at = λ ns. kept-named _ ns (idlers.get s.controller.user_idlers ns) (h.held.at ns);
    };
    build = h.build;
    dc = h.dc;
  }

  -- The set of disabled users that a request to the API leaves: a user whom the body disables and does
  -- not enable is in it.
  disabled-by_api :
      (before : set.Map) (users : UserStatus)
      → contains_string users.disable name ≡ true
      → contains_string users.enable name ≡ false
      → StringSet.has set (set_user_idler_status set (ok users) before).1 name ≡ true
  disabled-by_api before users dis en =
      set_user_idler_status-has set users before name ∙ ground (arith, dis, en)

  to_le : (x : Option (String × User)) → to name x ≤ 1
  to_le none = omega arith
  to_le (some (ns, u)) = ground arith

  module _ (c : Config) (services : String → Services) where
    -- the sends to the namespace that end in a run
    unfoldable pub sends_ended : System idlers set → List (Event idlers set) → ℕ
    sends_ended s [] = 0
    sends_ended s (e ∷ es) = elim (step idlers set c services s e) [
      | none ↦ 0
      | some s' ↦ ends_send idlers set name s e + sends_ended s' es
    ]

    run-flight :
        (s t : System idlers set) (es : List (Event idlers set))
        → AllKept idlers set (named set (Disabled idlers set name)) s
        → All StaysDisabled es
        → run idlers set c services s es ≡ some t
        → sends_ended s es + in_flight idlers set name t ≡ in_flight idlers set name s
    unfolding run sends_ended
    run-flight s t [] kept stays h =
        let same : s ≡ t = cc in omega (arith, ap (λ q. in_flight idlers set name q) same)
    run-flight s t (e ∷ es) kept stays h = elim (Option-cases (step idlers set c services s e)) [
      | inl stuck ↦ cc (rw (stuck, run) at h)
      | inr (s', moved) ↦
          let k = named set (Disabled idlers set name) in
          let ended =
            OnSome-some (BeginsNone idlers set name c services (ends_send idlers set name s e) s) _
              s' (step-flight idlers set name c services s e kept) moved in
          let kept' =
            OnSome-some (AllKept idlers set k) _ s'
              (step-AllKept idlers set k c services s e (StaysDisabled-IsAllowed e stays.0) kept)
              moved in
          let rest = run-flight s' t es kept' stays.1 (rw (moved, run) at h) in
          rw (moved, sends_ended) (omega (arith, ended, rest))
    ]

    -- A user that the API disables while the controller runs. In any run from the controller's start,
    -- whatever the disabled users are then, a request to SetUserIdlerStatus disables the user and does not
    -- enable it, and no later change of the set enables it. Then of the watch goroutines that are sending
    -- to the idler of that name when the request comes, which are two at most, each delivers the user,
    -- gives up, or still sends at the end; and no other send to that idler is begun, in any order of
    -- the events.
    pub disabled_gets_no_more :
        (disabled : set.Map) (users : UserStatus) (before after : List (Event idlers set))
        (s t : System idlers set)
        → run idlers set c services (initial idlers set disabled) before ≡ some s
        → contains_string users.disable name ≡ true
        → contains_string users.enable name ≡ false
        → All StaysDisabled after
        → let d = (set_user_idler_status set (ok users) s.controller.disabled_users).1 in
          run idlers set c services s (users_changed d ∷ after) ≡ some t
          → (sends_ended (with_disabled d s) after + in_flight idlers set name t
              ≡ in_flight idlers set name s)
            × (in_flight idlers set name s ≤ 2)
    unfolding run step
    disabled_gets_no_more disabled users before after s t reached dis en stays h =
        let d = (set_user_idler_status set (ok users) s.controller.disabled_users).1 in
        let kept =
          run-AllKept idlers set (named set (λ d. Unit)) c services disabled before s tt
            (any_set before) reached in
        (
          run-flight (with_disabled d s) t after
              (Disabled-AllKept s d (disabled-by_api s.controller.disabled_users users dis en) kept)
              stays h,
          omega (arith, to_le s.sending_build, to_le s.sending_dc),
        )

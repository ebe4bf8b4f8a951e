-- ===== src/Controller/Events/Handlers.antt =====
-- The handlers of the controller by the rules of a property of the users.
use fabric8_jenkins_idler.Common.{
  String, ◌==◌, eq_iff, Bool, true, false, List, [], ◌∷◌, Option, none, some, Result, ok, err,
  parse_bool, ltb_ℤ, pos, inl, inr, refl, ◌≡◌, subst, Time, Bool-cases, OnSome,
}
use fabric8_jenkins_idler.ConcurrentMap.{ConcurrentMap, is_some}
use fabric8_jenkins_idler.Util.{contains_string}
use fabric8_jenkins_idler.Model.{
  Condition, User, Build, Object, DcObject, DeploymentConfig, get_by_type,
}
use fabric8_jenkins_idler.Model.StringSet
use fabric8_jenkins_idler.Tenant.{InfoList, InfoData}
use fabric8_jenkins_idler.UserIdler.{new_user_idler}
use fabric8_jenkins_idler.UserIdler.Loop.{Routine}
use fabric8_jenkins_idler.Controller.Defs.{
  Config, Controller, Outcome, sends, handle_build, handle_deployment_config, handle_dc_of,
  build_outcome, dc_outcome_for, dc_outcome, available_outcome, unless_disabled, send_if,
  create_for, tenant_namespace, create_if_not_exist, create_from, go_on, when_known,
}
use fabric8_jenkins_idler.Controller.Events.Kept.{Rules, Keeps, start-Keeps}

module _ (idlers : ConcurrentMap Routine) (set : ConcurrentMap Bool) (k : Rules set) where
  open k use {Own, Sent, Allowed, own-new, own-sent, own-checked, sent-build, sent-update}

  -- a user that a handler sends
  abbrev pub SendsKept : Outcome → Type 0
  SendsKept (sends ns u) = Sent ns u
  SendsKept _ = Unit

  unless_disabled-Kept :
      (b : Bool) (o : Outcome) → (b ≡ false → SendsKept o) → SendsKept (unless_disabled b o)
  unfolding unless_disabled
  unless_disabled-Kept true o h = tt
  unless_disabled-Kept false o h = h refl

  send_if-Kept : (b : Bool) (ns : String) (u : User) → Sent ns u → SendsKept (send_if b ns u)
  unfolding send_if
  send_if-Kept true ns u h = h
  send_if-Kept false ns u h = tt

  module _ (ns : String) (u : User)
      (sent : (t : Time) → Sent ns (record u { jenkins_last_update = t })) where
    dc_outcome-Kept : (c : Condition) (x : Result Bool) → SendsKept (dc_outcome ns u c x)
    unfolding dc_outcome
    dc_outcome-Kept c (err e) = tt
    dc_outcome-Kept c (ok true) = sent c.last_update_time
    dc_outcome-Kept c (ok false) = sent u.jenkins_last_update

    available_outcome-Kept : (x : Result Condition) → SendsKept (available_outcome ns u x)
    unfolding available_outcome
    available_outcome-Kept (err e) = tt
    available_outcome-Kept (ok c) = dc_outcome-Kept c (parse_bool c.status)

  -- the set of disabled users and every user idler of the map
  pub record Held (s : Controller idlers set) : Type 0 where
    pub allowed : Allowed s.disabled_users
    pub at : (ns : String) → OnSome (Keeps idlers set k ns) (idlers.get s.user_idlers ns)

  pub set-Held :
      (s : Controller idlers set) (ns : String) (r : Routine)
      → Held s
      → Keeps idlers set k ns r
      → Held (record s { user_idlers = idlers.set s.user_idlers ns r })
  set-Held s ns r h keeps = record {
    allowed = h.allowed;
    at = λ j. rw (idlers.get-set s.user_idlers ns r j) (elim (Bool-cases (ns == j)) [
      | inl e ↦ rw e (subst (λ j. Keeps idlers set k j r) ((eq_iff ns j).0 e) keeps)
      | inr e ↦ rw e (h.at j)
    ]);
  }

  -- what a handler leaves: a user to send that may be, and a controller that holds such users
  abbrev pub Leaves : Outcome × Controller idlers set → Type 0
  Leaves p = SendsKept p.0 × Held p.1

  module _ (c : Config) (tenant : String → String → Result InfoList) where
    create_for-Held :
        (ns : String) (s : Controller idlers set) (ds : List InfoData)
        → Held s
        → Held (create_for idlers set c tenant ns s ds).1
    unfolding create_for new_user_idler
    create_for-Held ns s [] h = record { allowed = h.allowed; at = h.at }
    create_for-Held ns s (d ∷ ds) h =
        set-Held s ns _ h (start-Keeps idlers set k ns _ (own-new d.id ns))

    create_from-Held :
        (ns : String) (s : Controller idlers set) (a : Result InfoList)
        → Held s
        → Held (create_from idlers set c tenant ns s a).1
    unfolding create_from
    create_from-Held ns s (err e) h = h
    create_from-Held ns s (ok ti) h = elim (Bool-cases (ltb_ℤ (pos 1) ti.total_count)) [
      | inl e ↦ rw e h
      | inr e ↦ rw e (create_for-Held ns s ti.items h)
    ]

    pub create_if_not_exist-Held :
        (ns : String) (s : Controller idlers set)
        → Held s
        → Held (create_if_not_exist idlers set c tenant ns s).1
    unfolding create_if_not_exist
    create_if_not_exist-Held ns s h = elim (Bool-cases (is_some (idlers.get s.user_idlers ns))) [
      | inl e ↦ rw (e, create_if_not_exist) h
      | inr e ↦ elim (Bool-cases (contains_string s.unknown_users ns)) [
        | inl f ↦ rw (e, f, create_if_not_exist) h
        | inr f ↦
            rw (e, f, create_if_not_exist) (create_from-Held ns s (tenant c.openshift_url ns) h)
      ]
    ]

    go_on-Leaves :
        (ns : String) (next : String → Controller idlers set → Option Routine → Outcome)
        (p : Result Bool × Controller idlers set)
        → ((s : Controller idlers set) (o : Option Routine)
            → Held s
            → OnSome (Keeps idlers set k ns) o
            → SendsKept (next ns s o))
        → Held p.1
        → Leaves (go_on idlers set c tenant ns next p)
    unfolding go_on
    go_on-Leaves ns next (err e, s) f h = (tt, h)
    go_on-Leaves ns next (ok true, s) f h = (f s _ h (h.at ns), h)
    go_on-Leaves ns next (ok false, s) f h = (tt, h)

    build_outcome-Kept :
        (b : Build) (ns : String) (s : Controller idlers set) (o : Option Routine)
        → Held s
        → OnSome (Keeps idlers set k ns) o
        → SendsKept (build_outcome idlers set c tenant b ns s o)
    unfolding build_outcome
    build_outcome-Kept b ns s none h keeps = tt
    build_outcome-Kept b ns s (some r) h keeps =
        unless_disabled-Kept (StringSet.has set s.disabled_users r.machine.user.name) _ (λ enabled.
          send_if-Kept _ ns _
            (sent-build ns r.machine.user b s.disabled_users keeps.own h.allowed enabled))

    dc_outcome_for-Kept :
        (dc : DeploymentConfig) (ns : String) (s : Controller idlers set) (o : Option Routine)
        → Held s
        → OnSome (Keeps idlers set k ns) o
        → SendsKept (dc_outcome_for idlers set c tenant dc ns s o)
    unfolding dc_outcome_for
    dc_outcome_for-Kept dc ns s none h keeps = tt
    dc_outcome_for-Kept dc ns s (some r) h keeps =
        unless_disabled-Kept (StringSet.has set s.disabled_users r.machine.user.name) _ (λ enabled.
          available_outcome-Kept ns r.machine.user
            (λ t. sent-update ns r.machine.user t s.disabled_users keeps.own h.allowed enabled)
            (get_by_type dc.status "Available"))

    pub handle_build-Leaves :
        (o : Object) (s : Controller idlers set)
        → Held s
        → Leaves (handle_build idlers set c tenant o s)
    unfolding handle_build when_known
    handle_build-Leaves o s h =
        go_on-Leaves o.object.metadata.namespace (build_outcome idlers set c tenant o.object)
          (create_if_not_exist idlers set c tenant o.object.metadata.namespace s)
          (λ s' r held keeps.
            build_outcome-Kept o.object o.object.metadata.namespace s' r held keeps)
          (create_if_not_exist-Held o.object.metadata.namespace s h)

    handle_dc_of-Leaves :
        (o : DcObject) (ns : Option String) (s : Controller idlers set)
        → Held s
        → Leaves (handle_dc_of idlers set c tenant o ns s)
    unfolding handle_dc_of
    handle_dc_of-Leaves o none s h = (tt, h)
    handle_dc_of-Leaves o (some ns) s h =
        go_on-Leaves ns (dc_outcome_for idlers set c tenant o.object)
          (create_if_not_exist idlers set c tenant ns s)
          (λ s' r held keeps. dc_outcome_for-Kept o.object ns s' r held keeps)
          (create_if_not_exist-Held ns s h)

    pub handle_deployment_config-Leaves :
        (o : DcObject) (s : Controller idlers set)
        → Held s
        → Leaves (handle_deployment_config idlers set c tenant o s)
    unfolding handle_deployment_config
    handle_deployment_config-Leaves o s h =
        handle_dc_of-Leaves o (tenant_namespace o.object.metadata.namespace) s h

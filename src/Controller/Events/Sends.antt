-- ===== src/Controller/Events/Sends.antt =====
-- To which namespaces the handlers send: not to that of a user who is disabled.
use fabric8_jenkins_idler.Common.{
  String, Bool, true, false, Option, none, some, Result, ok, err, parse_bool, ◌≡◌, ◌≢◌, refl, sym,
  ap, ◌∙◌, arith, OnSome,
}
use mathlib.Core.Bool.{false≢true}
use fabric8_jenkins_idler.ConcurrentMap.{ConcurrentMap}
use fabric8_jenkins_idler.Model.{
  Condition, User, new_user, Build, Object, DcObject, DeploymentConfig, get_by_type,
}
use fabric8_jenkins_idler.Model.StringSet
use fabric8_jenkins_idler.Tenant.{InfoList}
use fabric8_jenkins_idler.UserIdler.Loop.{Routine}
use fabric8_jenkins_idler.Controller.Defs.{
  Config, Controller, Outcome, sends, handle_build, handle_deployment_config, handle_dc_of,
  build_outcome, dc_outcome_for, dc_outcome, available_outcome, unless_disabled, send_if,
  tenant_namespace, create_if_not_exist, go_on, when_known, record_build, clean_active,
}
use fabric8_jenkins_idler.Controller.Events.Kept.{Rules, Keeps}
use fabric8_jenkins_idler.Controller.Events.Handlers.{Held, create_if_not_exist-Held}

pub built_name : (u : User) (b : Build) → (clean_active (record_build u b)).0.name ≡ u.name
unfolding clean_active record_build
built_name u b = ground arith

pub new_name : (id ns : String) → (new_user id ns).name ≡ ns
unfolding new_user
new_name id ns = refl

-- each idler, and each user that is sent to it, has the name of its namespace
abbrev pub named : (set : ConcurrentMap Bool) → (set.Map → Type 0) → Rules set
named set allowed = record {
  Own = λ ns u. u.name ≡ ns;
  Sent = λ ns u. u.name ≡ ns;
  Allowed = allowed;
  own-new = λ id ns. new_name id ns;
  own-sent = λ ns u h. h;
  own-checked = λ ns u v h same. same.2 ∙ h;
  sent-build = λ ns u b d h a enabled. built_name u b ∙ h;
  sent-update = λ ns u t d h a enabled. h;
}

-- a user that is sent goes to another namespace
abbrev pub Elsewhere : String → Outcome → Type 0
Elsewhere name (sends ns u) = ns ≢ name
Elsewhere name _ = Unit

module _ (name : String) where
  unless_disabled-Elsewhere :
      (b : Bool) (o : Outcome)
      → (b ≡ false → Elsewhere name o)
      → Elsewhere name (unless_disabled b o)
  unfolding unless_disabled
  unless_disabled-Elsewhere true o h = tt
  unless_disabled-Elsewhere false o h = h refl

  send_if-Elsewhere :
      (b : Bool) (ns : String) (u : User) → ns ≢ name → Elsewhere name (send_if b ns u)
  unfolding send_if
  send_if-Elsewhere true ns u h = h
  send_if-Elsewhere false ns u h = tt

  dc_outcome-Elsewhere :
      (ns : String) (u : User) (c : Condition) (x : Result Bool)
      → ns ≢ name
      → Elsewhere name (dc_outcome ns u c x)
  unfolding dc_outcome
  dc_outcome-Elsewhere ns u c (err e) h = tt
  dc_outcome-Elsewhere ns u c (ok true) h = h
  dc_outcome-Elsewhere ns u c (ok false) h = h

  available_outcome-Elsewhere :
      (ns : String) (u : User) (x : Result Condition)
      → ns ≢ name
      → Elsewhere name (available_outcome ns u x)
  unfolding available_outcome
  available_outcome-Elsewhere ns u (err e) h = tt
  available_outcome-Elsewhere ns u (ok c) h = dc_outcome-Elsewhere ns u c (parse_bool c.status) h

module _ (idlers : ConcurrentMap Routine) (set : ConcurrentMap Bool) (name : String) where
  abbrev pub Disabled : set.Map → Type 0
  Disabled d = StringSet.has set d name ≡ true

  other :
      (ns : String) (u : User) (d : set.Map)
      → u.name ≡ ns
      → Disabled d
      → StringSet.has set d u.name ≡ false
      → ns ≢ name
  other ns u d own disabled enabled e =
      false≢true (sym enabled ∙ ap (StringSet.has set d) (own ∙ e) ∙ disabled)

  module _ (c : Config) (tenant : String → String → Result InfoList) where
    build_outcome-Elsewhere :
        (b : Build) (ns : String) (s : Controller idlers set) (o : Option Routine)
        → Disabled s.disabled_users
        → OnSome (λ (r : Routine). r.machine.user.name ≡ ns) o
        → Elsewhere name (build_outcome idlers set c tenant b ns s o)
    unfolding build_outcome
    build_outcome-Elsewhere b ns s none d own = tt
    build_outcome-Elsewhere b ns s (some r) d own =
        unless_disabled-Elsewhere name (StringSet.has set s.disabled_users r.machine.user.name) _
          (λ enabled.
            send_if-Elsewhere name _ ns _ (other ns r.machine.user s.disabled_users own d enabled))

    dc_outcome_for-Elsewhere :
        (dc : DeploymentConfig) (ns : String) (s : Controller idlers set) (o : Option Routine)
        → Disabled s.disabled_users
        → OnSome (λ (r : Routine). r.machine.user.name ≡ ns) o
        → Elsewhere name (dc_outcome_for idlers set c tenant dc ns s o)
    unfolding dc_outcome_for
    dc_outcome_for-Elsewhere dc ns s none d own = tt
    dc_outcome_for-Elsewhere dc ns s (some r) d own =
        unless_disabled-Elsewhere name (StringSet.has set s.disabled_users r.machine.user.name) _
          (λ enabled.
            available_outcome-Elsewhere name ns r.machine.user (get_by_type dc.status "Available")
              (other ns r.machine.user s.disabled_users own d enabled))

    own_name :
        (ns : String) (o : Option Routine)
        → OnSome (Keeps idlers set (named set Disabled) ns) o
        → OnSome (λ (r : Routine). r.machine.user.name ≡ ns) o
    own_name ns none h = tt
    own_name ns (some r) h = h.own

    go_on-Elsewhere :
        (ns : String) (next : String → Controller idlers set → Option Routine → Outcome)
        (p : Result Bool × Controller idlers set)
        → ((s : Controller idlers set) (o : Option Routine)
            → Disabled s.disabled_users
            → OnSome (λ (r : Routine). r.machine.user.name ≡ ns) o
            → Elsewhere name (next ns s o))
        → Held idlers set (named set Disabled) p.1
        → Elsewhere name (go_on idlers set c tenant ns next p).0
    unfolding go_on
    go_on-Elsewhere ns next (err e, s) f h = tt
    go_on-Elsewhere ns next (ok true, s) f h = f s _ h.allowed (own_name ns _ (h.at ns))
    go_on-Elsewhere ns next (ok false, s) f h = tt

    -- While the user is disabled, a handler sends nothing to the user's idler.
    pub handle_build-Elsewhere :
        (o : Object) (s : Controller idlers set)
        → Held idlers set (named set Disabled) s
        → Elsewhere name (handle_build idlers set c tenant o s).0
    unfolding handle_build when_known
    handle_build-Elsewhere o s h =
        go_on-Elsewhere o.object.metadata.namespace (build_outcome idlers set c tenant o.object)
          (create_if_not_exist idlers set c tenant o.object.metadata.namespace s)
          (λ s' r d own. build_outcome-Elsewhere o.object o.object.metadata.namespace s' r d own)
          (create_if_not_exist-Held idlers set (named set Disabled) c tenant
            o.object.metadata.namespace s h)

    handle_dc_of-Elsewhere :
        (o : DcObject) (ns : Option String) (s : Controller idlers set)
        → Held idlers set (named set Disabled) s
        → Elsewhere name (handle_dc_of idlers set c tenant o ns s).0
    unfolding handle_dc_of
    handle_dc_of-Elsewhere o none s h = tt
    handle_dc_of-Elsewhere o (some ns) s h =
        go_on-Elsewhere ns (dc_outcome_for idlers set c tenant o.object)
          (create_if_not_exist idlers set c tenant ns s)
          (λ s' r d own. dc_outcome_for-Elsewhere o.object ns s' r d own)
          (create_if_not_exist-Held idlers set (named set Disabled) c tenant ns s h)

    pub handle_deployment_config-Elsewhere :
        (o : DcObject) (s : Controller idlers set)
        → Held idlers set (named set Disabled) s
        → Elsewhere name (handle_deployment_config idlers set c tenant o s).0
    unfolding handle_deployment_config
    handle_deployment_config-Elsewhere o s h =
        handle_dc_of-Elsewhere o (tenant_namespace o.object.metadata.namespace) s h

-- ===== src/Controller/Safety.antt =====
-- The handlers never dereference a nil user idler.
use fabric8_jenkins_idler.Common.{
  String, eq_refl, ◌<>◌, Bool, true, false, Option, some, Result, ok, err, parse_bool, ◌≡◌, sym,
  subst, inl, inr, arith, Option-cases,
}
use fabric8_jenkins_idler.ConcurrentMap.{ConcurrentMap, is_some}
use fabric8_jenkins_idler.Model.{
  User, Build, Object, DcObject, DeploymentConfig, Condition, get_by_type,
}
use fabric8_jenkins_idler.Model.StringSet
use fabric8_jenkins_idler.Tenant.{InfoList, InfoData}
use fabric8_jenkins_idler.UserIdler.Loop.{Routine}
use fabric8_jenkins_idler.Controller.Defs.{
  Config, Controller, Outcome, returned, sends, panicked, create_if_not_exist, go_on, when_known,
  handle_build, build_outcome, record_build, clean_active, unless_disabled, send_if, dc_outcome_for,
  available_outcome, dc_outcome, available_cond, handle_dc_of, handle_deployment_config,
}
use fabric8_jenkins_idler.Controller.Deployments.{tenant_namespace-append}
use fabric8_jenkins_idler.Controller.Users.{
  create_if_not_exist_cases, FromTenant, with_idler, fresh,
}

abbrev pub NoPanic : Outcome → Type 0
NoPanic (returned e) = Unit
NoPanic (sends ns u) = Unit
NoPanic panicked = ⊥

unless_disabled-NoPanic : (b : Bool) (o : Outcome) → NoPanic o → NoPanic (unless_disabled b o)
unfolding unless_disabled
unless_disabled-NoPanic true o h = tt
unless_disabled-NoPanic false o h = h

send_if-NoPanic : (b : Bool) (ns : String) (u : User) → NoPanic (send_if b ns u)
unfolding send_if
send_if-NoPanic true ns u = tt
send_if-NoPanic false ns u = tt

dc_outcome-NoPanic :
    (ns : String) (u : User) (k : Condition) (x : Result Bool) → NoPanic (dc_outcome ns u k x)
unfolding dc_outcome
dc_outcome-NoPanic ns u k (ok true) = tt
dc_outcome-NoPanic ns u k (ok false) = tt
dc_outcome-NoPanic ns u k (err e) = tt

available_outcome-NoPanic :
    (ns : String) (u : User) (x : Result Condition) → NoPanic (available_outcome ns u x)
unfolding available_outcome
available_outcome-NoPanic ns u (ok k) = dc_outcome-NoPanic ns u k (parse_bool k.status)
available_outcome-NoPanic ns u (err e) = tt

module _ (idlers : ConcurrentMap Routine) (set : ConcurrentMap Bool) (c : Config) where
  module _ (tenant : String → String → Result InfoList) where
    -- what createIfNotExist's answer `true` promises
    abbrev pub IsReady : String → Result Bool × Controller idlers set → Type 0
    IsReady ns (ok true, s) = is_some (idlers.get s.user_idlers ns) ≡ true
    IsReady ns (ok false, s) = Unit
    IsReady ns (err e, s) = Unit

    with_idler_known :
        (s : Controller idlers set) (ns : String) (d : InfoData)
        → IsReady ns (ok true, with_idler idlers set c s ns d)
    with_idler_known s ns d =
        rw (idlers.get-set s.user_idlers ns (fresh idlers set c ns d) ns, eq_refl ns)

    FromTenant-IsReady :
        (s : Controller idlers set) (ns : String) (a : Result InfoList)
        (r : Result Bool × Controller idlers set)
        → FromTenant idlers set c s ns a r
        → IsReady ns r
    FromTenant-IsReady s ns (err e) r q = subst (IsReady ns) (sym q) tt
    FromTenant-IsReady s ns (ok ti) r (inl (_, q)) = subst (IsReady ns) (sym q) tt
    FromTenant-IsReady s ns (ok ti) r (inr (inl (_, _, q))) = subst (IsReady ns) (sym q) tt
    FromTenant-IsReady s ns (ok ti) r (inr (inr (_, (d, ds, _, q)))) =
        subst (IsReady ns) (sym q) (with_idler_known s ns d)

    create_if_not_exist-IsReady :
        (ns : String) (s : Controller idlers set)
        → IsReady ns (create_if_not_exist idlers set c tenant ns s)
    create_if_not_exist-IsReady ns s = elim (create_if_not_exist_cases idlers set c tenant ns s) [
      | inl (known, q) ↦ subst (IsReady ns) (sym q) known
      | inr (inl (_, _, q)) ↦ subst (IsReady ns) (sym q) tt
      | inr (inr (_, _, f)) ↦ FromTenant-IsReady s ns (tenant c.openshift_url ns) _ f
    ]

    go_on-NoPanic :
        (ns : String) (next : String → Controller idlers set → Option Routine → Outcome)
        (r : Result Bool × Controller idlers set)
        → ((s : Controller idlers set) (q : Routine) → NoPanic (next ns s (some q)))
        → IsReady ns r
        → NoPanic (go_on idlers set c tenant ns next r).0
    unfolding go_on
    go_on-NoPanic ns next (err e, s) h k = tt
    go_on-NoPanic ns next (ok false, s) h k = tt
    go_on-NoPanic ns next (ok true, s) h k = elim (Option-cases (idlers.get s.user_idlers ns)) [
      | inl missing ↦ absurd (ground arith)
      | inr (q, found) ↦ rw found (h s q)
    ]

    when_known-NoPanic :
        (ns : String) (next : String → Controller idlers set → Option Routine → Outcome)
        (s : Controller idlers set)
        → ((t : Controller idlers set) (q : Routine) → NoPanic (next ns t (some q)))
        → NoPanic (when_known idlers set c tenant ns next s).0
    unfolding when_known
    when_known-NoPanic ns next s h = go_on-NoPanic ns next _ h (create_if_not_exist-IsReady ns s)

    build_outcome-NoPanic :
        (b : Build) (ns : String) (s : Controller idlers set) (q : Routine)
        → NoPanic (build_outcome idlers set c tenant b ns s (some q))
    unfolding build_outcome
    build_outcome-NoPanic b ns s q =
        let u = q.machine.user in
        let p = clean_active (record_build u b) in
        unless_disabled-NoPanic (StringSet.has set s.disabled_users u.name) (send_if p.1 ns p.0)
          (send_if-NoPanic p.1 ns p.0)

    dc_outcome_for-NoPanic :
        (d : DeploymentConfig) (ns : String) (s : Controller idlers set) (q : Routine)
        → NoPanic (dc_outcome_for idlers set c tenant d ns s (some q))
    unfolding dc_outcome_for
    dc_outcome_for-NoPanic d ns s q =
        let u = q.machine.user in
        let k = get_by_type d.status available_cond in
        unless_disabled-NoPanic (StringSet.has set s.disabled_users u.name)
          (available_outcome ns u k) (available_outcome-NoPanic ns u k)

    -- HandleBuild never panics: where it goes on behind createIfNotExist, the map has a user idler for
    -- the namespace of the build.
    pub handle_build-NoPanic :
        (o : Object) (s : Controller idlers set) → NoPanic (handle_build idlers set c tenant o s).0
    unfolding handle_build
    handle_build-NoPanic o s =
        let ns = o.object.metadata.namespace in
        when_known-NoPanic ns (build_outcome idlers set c tenant o.object) s
          (build_outcome-NoPanic o.object ns)

    -- HandleDeploymentConfig does not panic on a namespace that ends with `-jenkins`, which is the
    -- suffix that the watch is started with.
    pub handle_deployment_config-NoPanic :
        (o : DcObject) (n : String) (s : Controller idlers set)
        → o.object.metadata.namespace ≡ n <> "-jenkins"
        → NoPanic (handle_deployment_config idlers set c tenant o s).0
    unfolding handle_deployment_config handle_dc_of
    handle_deployment_config-NoPanic o n s e =
        rw (e, tenant_namespace-append n)
          (when_known-NoPanic n (dc_outcome_for idlers set c tenant o.object) s
            (dc_outcome_for-NoPanic o.object n))

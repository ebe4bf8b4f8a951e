-- ===== src/Controller/Deployments.antt =====
-- What HandleDeploymentConfig sends to the user idler.
use Prim.Native.String.{len}
use text.Mathlib.TextPositions.{len-append, slice-append_left}
use fabric8_jenkins_idler.Common.{
  String, ◌==◌, ◌<>◌, ◌+◌, ◌-◌, ltb, Bool, true, false, List, none, some, Result, ok, err, IsFirst,
  All, find_first, find_first-IsFirst, find_first-none, parse_bool, ◌≡◌, refl, ap, ◌⊎◌, inl, inr,
  arith, Option-cases,
}
use fabric8_jenkins_idler.ConcurrentMap.{ConcurrentMap}
use fabric8_jenkins_idler.Model.{User, Condition, DcStatus, DcObject, get_by_type, found_condition}
use fabric8_jenkins_idler.Model.StringSet
use fabric8_jenkins_idler.Tenant.{InfoList}
use fabric8_jenkins_idler.UserIdler.{jenkins_namespace_suffix}
use fabric8_jenkins_idler.UserIdler.Loop.{Routine}
use fabric8_jenkins_idler.Controller.Defs.{
  available_cond, Config, Controller, Outcome, returned, sends, tenant_namespace, dc_outcome,
  available_outcome, unless_disabled, dc_outcome_for, handle_dc_of, handle_deployment_config,
}
use fabric8_jenkins_idler.Controller.Builds.{when_known_lem}

-- The slice undoes the suffix.
pub tenant_namespace-append :
    (n : String) → tenant_namespace (n <> jenkins_namespace_suffix) ≡ some n
unfolding tenant_namespace
tenant_namespace-append n =
    let total : len (n <> jenkins_namespace_suffix) ≡ len n + 8 =
      len-append n jenkins_namespace_suffix in
    let long : ltb (len n + 8) 8 ≡ false = ground arith in
    let rest : len n + 8 - 8 ≡ len n = omega arith in
    rw (total, long, rest) (ap some (slice-append_left n jenkins_namespace_suffix))

-- The first condition of a status with the type `Available`
abbrev pub IsAvailability : List Condition → Condition → Type 0
IsAvailability cs k = IsFirst (λ (x : Condition). x.type == "Available") cs k

-- what the handler makes of the conditions for a user that is not disabled
abbrev pub Availability : String → User → List Condition → Outcome → Type 0
Availability n u cs r =
    (All (λ (x : Condition). (x.type == "Available") ≡ false) cs × (r ≡ returned none))
    ⊎ ((k : Condition) × IsAvailability cs k
        × (((parse_bool k.status ≡ ok true)
              × (r ≡ sends n (record u { jenkins_last_update = k.last_update_time })))
            ⊎ ((parse_bool k.status ≡ ok false) × (r ≡ sends n u))
            ⊎ ((e : String) × (parse_bool k.status ≡ err e) × (r ≡ returned (some e)))))

dc_outcome_cases :
    (n : String) (u : User) (k : Condition) (x : Result Bool)
    → ((x ≡ ok true)
        × (dc_outcome n u k x ≡ sends n (record u { jenkins_last_update = k.last_update_time })))
      ⊎ ((x ≡ ok false) × (dc_outcome n u k x ≡ sends n u))
      ⊎ ((e : String) × (x ≡ err e) × (dc_outcome n u k x ≡ returned (some e)))
unfolding dc_outcome
dc_outcome_cases n u k (ok true) = inl (refl, refl)
dc_outcome_cases n u k (ok false) = inr (inl (refl, refl))
dc_outcome_cases n u k (err e) = inr (inr (e, refl, refl))

get_by_type_found :
    (dc : DcStatus) (t : String) (k : Condition)
    → find_first (λ (x : Condition). x.type == t) dc.conditions ≡ some k
    → get_by_type dc t ≡ ok k
unfolding get_by_type
get_by_type_found dc t k e = ap (found_condition t) e

get_by_type_missing :
    (dc : DcStatus) (t : String)
    → find_first (λ (x : Condition). x.type == t) dc.conditions ≡ none
    → (e : String) × (get_by_type dc t ≡ err e)
unfolding get_by_type
get_by_type_missing dc t e = (_, ap (found_condition t) e)

available_outcome_cases :
    (n : String) (u : User) (dc : DcStatus)
    → Availability n u dc.conditions (available_outcome n u (get_by_type dc available_cond))
unfolding available_outcome
available_outcome_cases n u dc =
    elim (Option-cases (find_first (λ (x : Condition). x.type == "Available") dc.conditions)) [
      | inl e ↦ inl (
        find_first-none _ dc.conditions e,
        rw ((get_by_type_missing dc available_cond e).1, available_outcome),
      )
      | inr (k, e) ↦ inr (
        k,
        find_first-IsFirst _ dc.conditions k e,
        rw (get_by_type_found dc available_cond k e) (dc_outcome_cases n u k (parse_bool k.status)),
      )
    ]

unless_disabled_cases :
    (b : Bool) (o : Outcome)
    → ((b ≡ true) × (unless_disabled b o ≡ returned none))
      ⊎ ((b ≡ false) × (unless_disabled b o ≡ o))
unfolding unless_disabled
unless_disabled_cases true o = inl (refl, refl)
unless_disabled_cases false o = inr (refl, refl)

module _ (idlers : ConcurrentMap Routine) (set : ConcurrentMap Bool) (c : Config) where
  handle_lem :
      (tenant : String → String → Result InfoList) (s : Controller idlers set) (o : DcObject)
      (n : String) (r : Routine)
      → o.object.metadata.namespace ≡ n <> "-jenkins"
      → idlers.get s.user_idlers n ≡ some r
      → handle_deployment_config idlers set c tenant o s ≡ (
        unless_disabled
            (StringSet.has set s.disabled_users r.machine.user.name)
            (available_outcome n r.machine.user (get_by_type o.object.status available_cond)),
        s,
      )
  unfolding handle_deployment_config handle_dc_of dc_outcome_for
  handle_lem tenant s o n r e known =
      rw (e, tenant_namespace-append n)
        (when_known_lem idlers set c tenant s n (dc_outcome_for idlers set c tenant o.object) r
          known)

  -- HandleDeploymentConfig on a namespace with the suffix `-jenkins`, which is what WatchDeploymentConfigs
  -- lets through, where the namespace without the suffix has a user idler. It does not panic, and
  -- changes nothing. For a disabled user it sends nothing. Otherwise it depends on the first condition
  -- of the type `Available`: without one it does nothing; where its status is no truth value it
  -- returns the parser's error; where it is false it sends the user as it is; and where it is true it
  -- sends the user with the condition's time as the last update of Jenkins.
  pub handle_deployment_config_known :
      (tenant : String → String → Result InfoList) (s : Controller idlers set) (o : DcObject)
      (n : String) (r : Routine)
      → o.object.metadata.namespace ≡ n <> "-jenkins"
      → idlers.get s.user_idlers n ≡ some r
      → let u = r.machine.user in
        let result = handle_deployment_config idlers set c tenant o s in
        (result.1 ≡ s)
        × (((StringSet.has set s.disabled_users u.name ≡ true) × (result.0 ≡ returned none))
            ⊎ ((StringSet.has set s.disabled_users u.name ≡ false)
                × Availability n u o.object.status.conditions result.0))
  handle_deployment_config_known tenant s o n r e known = rw (handle_lem tenant s o n r e known) (
    refl,
    elim (unless_disabled_cases (StringSet.has set s.disabled_users r.machine.user.name)
        (available_outcome n r.machine.user (get_by_type o.object.status available_cond))) [
          | inl (off, q) ↦ inl (off, q)
          | inr (on, q) ↦ inr (on, rw q (available_outcome_cases n r.machine.user o.object.status))
        ],
  )

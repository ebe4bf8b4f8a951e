-- ===== src/Controller/Users.antt =====
-- createIfNotExist: which namespaces get a user idler, and which are remembered as unknown.
use fabric8_jenkins_idler.Common.{
  String, eq_refl, pos, ◌≤ℤ◌, ◌<ℤ◌, ltb_ℤ, format_int, ◌<>◌, Bool, true, false, List, [], ◌∷◌, none,
  Result, ok, err, ◌≡◌, refl, ◌⊎◌, inl, inr, arith, Bool-cases,
}
use fabric8_jenkins_idler.ConcurrentMap.{ConcurrentMap, is_some}
use fabric8_jenkins_idler.Util.{contains_string}
use fabric8_jenkins_idler.Model.{new_user}
use fabric8_jenkins_idler.Tenant.{InfoList, InfoData}
use fabric8_jenkins_idler.UserIdler.{new_user_idler}
use fabric8_jenkins_idler.UserIdler.Loop.{Routine, start}
use fabric8_jenkins_idler.Controller.Defs.{
  Config, Controller, create_for, create_from, create_if_not_exist,
}

module _ (idlers : ConcurrentMap Routine) (set : ConcurrentMap Bool) (c : Config) where
  -- the goroutine that a namespace gets for a tenant
  abbrev pub fresh : String → InfoData → Routine
  fresh ns d = start (
      new_user_idler (new_user d.id ns) c.openshift_url c.os_bearer_token c.max_retries c.idle_after
        c.idle_long_build)

  -- the controller with a user idler more
  abbrev pub with_idler : Controller idlers set → String → InfoData → Controller idlers set
  with_idler s ns d = record s { user_idlers = idlers.set s.user_idlers ns (fresh ns d) }

  -- the controller with an unknown namespace more
  abbrev pub with_unknown : Controller idlers set → String → Controller idlers set
  with_unknown s ns = record s { unknown_users = ns ∷ s.unknown_users }

  -- Once a namespace is remembered as unknown, it stays without a user idler, whatever the tenant
  -- service would answer later.
  unknown_stays :
      (tenant : String → String → Result InfoList) (ns : String) (s : Controller idlers set)
      → idlers.get s.user_idlers ns ≡ none
      → create_if_not_exist idlers set c tenant ns (with_unknown s ns)
        ≡ (ok false, with_unknown s ns)
  unfolding create_if_not_exist contains_string
  unknown_stays tenant ns s h = rw (h, eq_refl ns)

  -- For a namespace that has no user idler and is not remembered as unknown: an answer of the
  -- tenant service with no data and a total of at most one, whatever errors it holds, makes the
  -- namespace unknown; and a call of createIfNotExist after that returns false and changes
  -- nothing, whatever the tenant service would answer then.
  pub empty_answer_is_final :
      (now later : String → String → Result InfoList) (ns : String) (s : Controller idlers set)
      (ti : InfoList)
      → idlers.get s.user_idlers ns ≡ none
      → contains_string s.unknown_users ns ≡ false
      → now c.openshift_url ns ≡ ok ti
      → ti.items ≡ []
      → ti.total_count ≤ℤ pos 1
      → (create_if_not_exist idlers set c now ns s ≡ (ok false, with_unknown s ns))
        × (create_if_not_exist idlers set c later ns (with_unknown s ns)
            ≡ (ok false, with_unknown s ns))
  unfolding create_if_not_exist
  empty_answer_is_final now later ns s ti h u a e t =
      (rw (h, u, a, e) (ground arith), unknown_stays later ns s h)

  abbrev pub too_many : InfoList → String
  too_many ti =
      "could not add new user - Tenant service returned multiple items: "
      <> format_int ti.total_count

  -- what the answer of the tenant service leads to
  abbrev pub FromTenant :
      Controller idlers set
      → String
      → Result InfoList
      → Result Bool × Controller idlers set
      → Type 0
  FromTenant s ns (err e) r = r ≡ (err e, s)
  FromTenant s ns (ok ti) r =
      ((pos 1 <ℤ ti.total_count) × (r ≡ (err (too_many ti), s)))
      ⊎ ((ti.total_count ≤ℤ pos 1) × (ti.items ≡ []) × (r ≡ (ok false, with_unknown s ns)))
      ⊎ ((ti.total_count ≤ℤ pos 1)
          × ((d : InfoData) × (ds : List InfoData) × (ti.items ≡ d ∷ ds)
              × (r ≡ (ok true, with_idler s ns d))))

  create_for_cases :
      (tenant : String → String → Result InfoList) (ns : String) (s : Controller idlers set)
      (ds : List InfoData)
      → ((ds ≡ []) × (create_for idlers set c tenant ns s ds ≡ (ok false, with_unknown s ns)))
        ⊎ ((d : InfoData) × (rest : List InfoData) × (ds ≡ d ∷ rest)
            × (create_for idlers set c tenant ns s ds ≡ (ok true, with_idler s ns d)))
  unfolding create_for
  create_for_cases tenant ns s [] = inl (refl, refl)
  create_for_cases tenant ns s (d ∷ rest) = inr (d, rest, refl, refl)

  create_from-FromTenant :
      (tenant : String → String → Result InfoList) (ns : String) (s : Controller idlers set)
      (a : Result InfoList)
      → FromTenant s ns a (create_from idlers set c tenant ns s a)
  unfolding create_from
  create_from-FromTenant tenant ns s (err e) = refl
  create_from-FromTenant tenant ns s (ok ti) = elim (Bool-cases (ltb_ℤ (pos 1) ti.total_count)) [
    | inl e ↦ inl (ground arith, rw e)
    | inr e ↦ elim (create_for_cases tenant ns s ti.items) [
      | inl (none_given, r) ↦ inr (inl (ground arith, none_given, rw e r))
      | inr (d, rest, given, r) ↦ inr (inr (ground arith, (d, rest, given, rw e r)))
    ]
  ]

  -- What createIfNotExist does, in order: a namespace with a user idler is left alone; so is one that
  -- is known to be unknown; an error of the tenant service, or more than one item, is an error and
  -- changes nothing; an answer without data makes the namespace unknown; and otherwise it gets a fresh
  -- user idler for the first tenant of the answer.
  pub create_if_not_exist_cases :
      (tenant : String → String → Result InfoList) (ns : String) (s : Controller idlers set)
      → let r = create_if_not_exist idlers set c tenant ns s in
        ((is_some (idlers.get s.user_idlers ns) ≡ true) × (r ≡ (ok true, s)))
        ⊎ ((is_some (idlers.get s.user_idlers ns) ≡ false)
            × (contains_string s.unknown_users ns ≡ true)
            × (r ≡ (ok false, s)))
        ⊎ ((is_some (idlers.get s.user_idlers ns) ≡ false)
            × (contains_string s.unknown_users ns ≡ false)
            × FromTenant s ns (tenant c.openshift_url ns) r)
  unfolding create_if_not_exist
  create_if_not_exist_cases tenant ns s =
      elim (Bool-cases (is_some (idlers.get s.user_idlers ns))) [
        | inl e ↦ inl (e, rw e)
        | inr e ↦ elim (Bool-cases (contains_string s.unknown_users ns)) [
          | inl f ↦ inr (inl (e, f, rw (e, f)))
          | inr f ↦ inr (
              inr
                (e, f, rw (e, f) (create_from-FromTenant tenant ns s (tenant c.openshift_url ns))))
        ]
      ]

-- ===== src/Controller/Creation/Alone.antt =====
-- The steps of createIfNotExist, taken by one goroutine while the other stands still, against the
-- whole of it in Controller/Defs.
use fabric8_jenkins_idler.Common.{
  String, ℕ, zero, suc, Bool, true, false, none, some, Result, ok, err, List, ◌∷◌, ◌≡◌, ◌≢◌, ◌⊎◌,
  ◌∙◌, ap, inl, inr, refl, arith, if◌then◌else◌, Bool-cases,
}
use fabric8_jenkins_idler.ConcurrentMap.{ConcurrentMap, is_some}
use fabric8_jenkins_idler.Util.{contains_string}
use fabric8_jenkins_idler.Tenant.{InfoList}
use fabric8_jenkins_idler.UserIdler.Loop.{Routine}
use fabric8_jenkins_idler.Controller.Defs.{
  Config, Controller, create_from, create_for, create_if_not_exist,
}
use fabric8_jenkins_idler.Controller.Users.{FromTenant, create_if_not_exist_cases}
use fabric8_jenkins_idler.Controller.Creation.{
  Phase, ended, at_idlers, at_tenant, Move, answer, go, Shared, stored, advance,
}

module _ (idlers : ConcurrentMap Routine) (set : ConcurrentMap Bool) (c : Config) where
  -- the next move of a goroutine in createIfNotExist, with the answer that the tenant service gives
  abbrev pub next : Result InfoList → Phase → Move
  next a (at_tenant ns) = answer a
  next a _ = go

  -- the steps of one goroutine alone, a number of them at most
  unfoldable pub alone : ℕ → Result InfoList → Phase → Shared idlers set → Phase × Shared idlers set
  alone zero a ph s = (ph, s)
  alone (suc n) a ph s = elim (advance idlers set c ph (next a ph) s) [
    | none ↦ (ph, s)
    | some (ph', s') ↦ alone n a ph' s'
  ]

  -- the namespaces with a goroutine, after a call that returned a result
  abbrev pub started_after :
      String → Shared idlers set → Result Bool × Controller idlers set → List String
  started_after ns s (ok true, t) =
      if is_some (idlers.get s.controller.user_idlers ns) then s.started else ns ∷ s.started
  started_after ns s _ = s.started

  -- the end of createIfNotExist, called as a whole
  abbrev pub whole :
      String → Shared idlers set → Result Bool × Controller idlers set → Phase × Shared idlers set
  whole ns s r = (ended r.0, record s { controller = r.1; started = started_after ns s r })

  alone-stored :
      (ns : String) (s : Shared idlers set) (a : Result InfoList)
      (r : Result Bool × Controller idlers set)
      → is_some (idlers.get s.controller.user_idlers ns) ≡ false
      → alone 1 a (stored idlers set ns s r).0 (stored idlers set ns s r).1 ≡ whole ns s r
  unfolding alone advance
  alone-stored ns s a (err x, t) e = refl
  alone-stored ns s a (ok false, t) e = refl
  alone-stored ns s a (ok true, t) e = rw e

  -- While the other goroutine stands still, the steps of a goroutine through createIfNotExist end after
  -- five at most, with the result and in the state of createIfNotExist taken as one step with that
  -- answer of the tenant service; and a user idler's goroutine was started exactly if the namespace had
  -- none in the map and the result is true.
  alone_refines :
      (ns : String) (s : Shared idlers set) (tenant : String → String → Result InfoList)
      → alone 5 (tenant c.openshift_url ns) (at_idlers ns) s
        ≡ whole ns s (create_if_not_exist idlers set c tenant ns s.controller)
  unfolding alone create_if_not_exist create_from create_for advance
  alone_refines ns s tenant = elim (Bool-cases (is_some (idlers.get s.controller.user_idlers ns))) [
    | inl e ↦ rw (e, alone) (ground arith)
    | inr e ↦ elim (Bool-cases (contains_string s.controller.unknown_users ns)) [
      | inl f ↦ rw (e, f, alone)
      | inr f ↦
          rw (e, f, alone)
            (alone-stored ns s (tenant c.openshift_url ns)
              (create_from idlers set c tenant ns s.controller (tenant c.openshift_url ns)) e)
    ]
  ]

  started_new :
      (ns : String) (s : Shared idlers set) (w : Result Bool × Controller idlers set)
      → is_some (idlers.get s.controller.user_idlers ns) ≡ false
      → ((w.0 ≡ ok true) × (started_after ns s w ≡ ns ∷ s.started))
        ⊎ ((w.0 ≢ ok true) × (started_after ns s w ≡ s.started))
  started_new ns s (ok true, t) e = inl (refl, rw e refl)
  started_new ns s (ok false, t) e = inr (λ h. cc, refl)
  started_new ns s (err x, t) e = inr (λ h. cc, refl)

  -- A goroutine goes through the steps of createIfNotExist while the other stands still. It is through
  -- after five steps at most, and it ends in one of these ways. A namespace with a user idler in the map is
  -- left alone, with true; one of the unknown users too, with false. For any other namespace, an error
  -- of the tenant service, or more than one item, is returned and changes nothing; an answer without
  -- data puts the namespace into the unknown users, with false; and otherwise the map gets a fresh user
  -- idler for the first tenant of the answer, with true. And in this last case alone, a goroutine of a user
  -- idler was started, for the namespace.
  pub alone_cases :
      (ns : String) (s : Shared idlers set) (tenant : String → String → Result InfoList)
      → let known = is_some (idlers.get s.controller.user_idlers ns) in
        let unknown = contains_string s.controller.unknown_users ns in
        (r : Result Bool) × (t : Controller idlers set) × (started : List String) × (alone 5
            (tenant c.openshift_url ns)
            (at_idlers ns)
            s
          ≡ (ended r, record s { controller = t; started = started }))
        × (((known ≡ true) × (r ≡ ok true) × (t ≡ s.controller) × (started ≡ s.started))
            ⊎ ((known ≡ false)
                × (unknown ≡ true)
                × (r ≡ ok false)
                × (t ≡ s.controller)
                × (started ≡ s.started))
            ⊎ ((known ≡ false)
                × (unknown ≡ false)
                × FromTenant idlers set c s.controller ns (tenant c.openshift_url ns) (r, t)
                × (((r ≡ ok true) × (started ≡ ns ∷ s.started))
                    ⊎ ((r ≢ ok true) × (started ≡ s.started)))))
  alone_cases ns s tenant =
      let w = create_if_not_exist idlers set c tenant ns s.controller in
      (
        w.0,
        w.1,
        started_after ns s w,
        alone_refines ns s tenant,
        elim (create_if_not_exist_cases idlers set c tenant ns s.controller) [
          | inl (e, r) ↦
              inl (e, ap (λ p. p.0) r, ap (λ p. p.1) r, ap (started_after ns s) r ∙ rw e refl)
          | inr (inl (e, f, r)) ↦
              inr (inl (e, f, ap (λ p. p.0) r, ap (λ p. p.1) r, ap (started_after ns s) r))
          | inr (inr (e, f, r)) ↦ inr (inr (e, f, r, started_new ns s w e))
        ],
      )

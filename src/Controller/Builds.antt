-- ===== src/Controller/Builds.antt =====
-- What HandleBuild sends to the user idler.
use mathlib.Core.Bool.{false≢true}
use fabric8_jenkins_idler.Common.{
  String, ◌==◌, eq_iff, Bool, true, false, Option, none, some, Result, ok, ◌≡◌, refl, sym, ap, ◌∙◌,
  inl, inr, arith, if◌then◌else◌, Bool-cases,
}
use fabric8_jenkins_idler.ConcurrentMap.{ConcurrentMap}
use fabric8_jenkins_idler.Model.{User, new_build, Build, Object}
use fabric8_jenkins_idler.Model.StringSet
use fabric8_jenkins_idler.Tenant.{InfoList}
use fabric8_jenkins_idler.UserIdler.Loop.{Routine}
use fabric8_jenkins_idler.Controller.Defs.{
  unless_disabled, send_if, Config, Controller, Outcome, returned, sends, is_active, differs,
  record_build, clean_active, create_if_not_exist, build_outcome, when_known, handle_build,
}

-- the slot of the user that an event is about, and the other one
abbrev slot : User → Build → Build
slot u b = if is_active b then u.active_build else u.done_build

-- An event changes the user if the phase or the name of its build differ from the slot's.
unfoldable pub changes : User → Build → Bool
changes u b = differs (slot u b) b

-- the user with the event's build in its slot
unfoldable pub with_build : User → Build → User
with_build u b = if is_active b then record u { active_build = b } else record u { done_build = b }

-- An active build with the name of the done build is the fresh one.
abbrev pub IsSeparated : User → Type 0
IsSeparated u =
    u.active_build.metadata.name ≡ u.done_build.metadata.name → u.active_build ≡ new_build

pub clean_active-IsSeparated :
    (u : User) (evaluate : Bool) → IsSeparated (clean_active (u, evaluate)).0
unfolding clean_active
clean_active-IsSeparated u evaluate =
    elim (Bool-cases (u.active_build.metadata.name == u.done_build.metadata.name)) [
      | inl e ↦ rw e (λ _. refl)
      | inr e ↦ rw e (λ h. absurd (false≢true (sym e ∙ (eq_iff _ _).1 h)))
    ]

-- what `record_build` makes of the user: the event's build in its slot, if it changes the user
record_build_lem :
    (u : User) (b : Build)
    → record_build u b ≡ (if changes u b then (with_build u b, true) else (u, false))
unfolding record_build changes with_build
record_build_lem u b = ground arith

unfoldable pub clashes : User → Bool
clashes u = u.active_build.metadata.name == u.done_build.metadata.name

-- the user that the event leaves, before the active build is dropped
unfoldable pub recorded : User → Build → User
recorded u b = if changes u b then with_build u b else u

module _ (idlers : ConcurrentMap Routine) (set : ConcurrentMap Bool) (c : Config) where
  module _ (tenant : String → String → Result InfoList) (s : Controller idlers set) where
    pub create_known :
        (ns : String) (r : Routine)
        → idlers.get s.user_idlers ns ≡ some r
        → create_if_not_exist idlers set c tenant ns s ≡ (ok true, s)
    unfolding create_if_not_exist
    create_known ns r known = rw known

    pub when_known_lem :
        (ns : String) (next : String → Controller idlers set → Option Routine → Outcome)
        (r : Routine)
        → idlers.get s.user_idlers ns ≡ some r
        → when_known idlers set c tenant ns next s ≡ (next ns s (some r), s)
    unfolding when_known
    when_known_lem ns next r known = rw (create_known ns r known) (ap (λ x. (next ns s x, s)) known)

    build_outcome_lem :
        (b : Build) (ns : String) (r : Routine)
        → let u = r.machine.user in
          let v = recorded u b in
          build_outcome idlers set c tenant b ns s (some r) ≡ (
            if StringSet.has set s.disabled_users u.name
            then returned none
            else if clashes v
            then sends ns (record v { active_build = new_build })
            else if changes u b
            then sends ns v
            else returned none)
    unfolding build_outcome unless_disabled send_if clean_active clashes recorded
    build_outcome_lem b ns r = elim (Bool-cases (changes r.machine.user b)) [
      | inl e ↦ elim (Bool-cases (clashes (with_build r.machine.user b))) [
        | inl f ↦ rw (record_build_lem r.machine.user b, e, f) (ground arith)
        | inr f ↦ rw (record_build_lem r.machine.user b, e, f) (ground arith)
      ]
      | inr e ↦ elim (Bool-cases (clashes r.machine.user)) [
        | inl f ↦ rw (record_build_lem r.machine.user b, e, f) (ground arith)
        | inr f ↦ rw (record_build_lem r.machine.user b, e, f) (ground arith)
      ]
    ]

    -- HandleBuild on a namespace that has a user idler. It never creates another one, never panics,
    -- and returns no error. It sends nothing for a disabled user. Otherwise it sends exactly if the
    -- build changes the user's record for builds of its kind (active or done) or if the active and the
    -- done build then have one name; what it sends is the record with the build put in, with the
    -- active build dropped in the case of one name.
    pub handle_build_known :
        (o : Object) (r : Routine)
        → idlers.get s.user_idlers o.object.metadata.namespace ≡ some r
        → let b = o.object in
          let u = r.machine.user in
          let v = recorded u b in
          handle_build idlers set c tenant o s ≡ (
            if StringSet.has set s.disabled_users u.name
                then returned none
                else if clashes v
                then sends b.metadata.namespace (record v { active_build = new_build })
                else if changes u b
                then sends b.metadata.namespace v
                else returned none,
            s,
          )
    unfolding handle_build
    handle_build_known o r known =
        when_known_lem o.object.metadata.namespace (build_outcome idlers set c tenant o.object) r
          known
        ∙ ap (λ x. (x, s)) (build_outcome_lem o.object o.object.metadata.namespace r)

-- ===== src/Controller/Creation.antt =====
-- createIfNotExist of internal/openshift/controller.go in the steps between which the two watch
-- goroutines of a cluster can take turns: each access to the shared maps, the answer of the tenant
-- service, and the start of the user idler. Controller/Defs has the whole of it as one step.
pub mod Bounded
pub mod Alone
pub mod Overlap
pub mod Stray
use fabric8_jenkins_idler.Common.{
  String, ◌==◌, ℕ, ◌+◌, Bool, true, false, List, [], ◌∷◌, Option, none, some, Result, ok, err,
  if◌then◌else◌,
}
use fabric8_jenkins_idler.ConcurrentMap.{ConcurrentMap, is_some}
use fabric8_jenkins_idler.Util.{contains_string}
use fabric8_jenkins_idler.Tenant.{InfoList}
use fabric8_jenkins_idler.UserIdler.Loop.{Routine}
use fabric8_jenkins_idler.Controller.Defs.{Config, Controller, create_from}
use fabric8_jenkins_idler.Controller.Events.{Watcher, builds, deployments}

-- Where a goroutine is in createIfNotExist: in none so far, or ended with a result; before the lookup
-- of the user idlers, and of the unknown users; in the call of the tenant service; with its answer; and
-- with the user idler stored, before `userIdler.Run`.
pub data Phase : Type 0 where
  resting : Phase
  ended : Result Bool → Phase
  at_idlers at_unknown at_tenant : String → Phase
  with_answer : String → Result InfoList → Phase
  at_run : String → Phase

-- What a goroutine does next: a handler calls createIfNotExist, the tenant service answers, or the
-- goroutine goes on.
pub data Move : Type 0 where
  call : String → Move
  answer : Result InfoList → Move
  go : Move

-- the number of times that a text occurs
abbrev pub count : String → List String → ℕ
count x [] = 0
count x (y ∷ ys) = (if y == x then 1 else 0) + count x ys

module _ (idlers : ConcurrentMap Routine) (set : ConcurrentMap Bool) where
  -- What both share: the maps, and the namespaces for which a goroutine of a user idler was started.
  pub record Shared : Type 0 where
    pub controller : Controller idlers set
    pub started : List String

  pub record Pair : Type 0 where
    pub shared : Shared
    pub building : Phase
    pub deploying : Phase

  -- neither goroutine has handled anything
  abbrev pub at_rest : Controller idlers set → Pair
  at_rest s = record {
    shared = record { controller = s; started = [] };
    building = resting;
    deploying = resting;
  }

  -- createIfNotExist from the answer of the tenant service up to `userIdler.Run`
  abbrev pub stored : String → Shared → Result Bool × Controller idlers set → Phase × Shared
  stored ns s (ok true, c) = (at_run ns, record s { controller = c })
  stored ns s (r, c) = (ended r, record s { controller = c })

  module _ (c : Config) where
    -- One step of a goroutine. `none` is a step that it cannot take.
    unfoldable pub advance : Phase → Move → Shared → Option (Phase × Shared)
    advance resting (call ns) s = some (at_idlers ns, s)
    advance (ended r) (call ns) s = some (at_idlers ns, s)
    advance (at_idlers ns) go s =
        if is_some (idlers.get s.controller.user_idlers ns)
        then some (ended (ok true), s)
        else some (at_unknown ns, s)
    advance (at_unknown ns) go s =
        if contains_string s.controller.unknown_users ns
        then some (ended (ok false), s)
        else some (at_tenant ns, s)
    advance (at_tenant ns) (answer a) s = some (with_answer ns a, s)
    advance (with_answer ns a) go s =
        some (stored ns s (create_from idlers set c (λ url n. a) ns s.controller a))
    advance (at_run ns) go s = some (ended (ok true), record s { started = ns ∷ s.started })
    advance _ _ s = none

    abbrev pub phase_of : Watcher → Pair → Phase
    phase_of builds p = p.building
    phase_of deployments p = p.deploying

    abbrev pub moved : Watcher → Pair → Option (Phase × Shared) → Option Pair
    moved w p none = none
    moved builds p (some (ph, s)) = some (record p { shared = s; building = ph })
    moved deployments p (some (ph, s)) = some (record p { shared = s; deploying = ph })

    unfoldable pub step : Pair → Watcher × Move → Option Pair
    unfolding advance
    step p (w, m) = moved w p (advance (phase_of w p) m p.shared)

    unfoldable pub run : Pair → List (Watcher × Move) → Option Pair
    unfolding step
    run p [] = some p
    run p (e ∷ es) = elim (step p e) [ none ↦ none | some p' ↦ run p' es ]

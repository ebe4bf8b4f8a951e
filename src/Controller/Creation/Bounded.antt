-- ===== src/Controller/Creation/Bounded.antt =====
-- How many goroutines of user idlers the handlers start for a namespace.
use fabric8_jenkins_idler.Common.{
  String, ◌==◌, eq_iff, ℕ, ◌+◌, ◌≤◌, Bool, Option, none, some, Result, ok, err, List, [], ◌∷◌, ◌≡◌,
  ◌≢◌, inl, inr, arith, if◌then◌else◌, Bool-cases, Option-cases, OnSome, OnSome-some, ◌<◌, ltb_ℤ,
  pos,
}
use fabric8_jenkins_idler.ConcurrentMap.{ConcurrentMap}
use fabric8_jenkins_idler.Tenant.{InfoList, InfoData}
use fabric8_jenkins_idler.UserIdler.Loop.{Routine}
use fabric8_jenkins_idler.Controller.Defs.{Config, Controller, create_from, create_for}
use fabric8_jenkins_idler.Controller.Users.{fresh}
use fabric8_jenkins_idler.Controller.Events.{Watcher, builds, deployments}
use fabric8_jenkins_idler.Controller.Creation.{
  Phase, resting, ended, at_idlers, at_unknown, at_tenant, with_answer, at_run, Move, call, answer,
  go, count, Shared, Pair, stored, advance, moved, phase_of, at_rest, step, run,
}

-- 1 for a goroutine that did not find a user idler of the namespace, and may yet start one
abbrev pub may_start : String → Phase → ℕ
may_start x (at_unknown ns) = if ns == x then 1 else 0
may_start x (at_tenant ns) = if ns == x then 1 else 0
may_start x (with_answer ns a) = if ns == x then 1 else 0
may_start x (at_run ns) = if ns == x then 1 else 0
may_start x _ = 0

-- 1 for a goroutine that has stored a user idler of the namespace, and will start it
abbrev pub will_start : String → Phase → ℕ
will_start x (at_run ns) = if ns == x then 1 else 0
will_start x _ = 0

module _ (idlers : ConcurrentMap Routine) (set : ConcurrentMap Bool) (c : Config) (x : String) where
  -- For a goroutine at a phase beside another that may start `o` and will start `w`: there is room for
  -- both, and while the map has no user idler of the namespace none was started.
  record Fits (o w : ℕ) (ph : Phase) (s : Shared idlers set) : Type 0 where
    room : count x s.started + may_start x ph + o ≤ 2
    from_map :
        idlers.get s.controller.user_idlers x ≡ none → count x s.started + will_start x ph + w ≡ 0

  abbrev Fitting : ℕ → ℕ → Option (Phase × Shared idlers set) → Type 0
  Fitting o w = OnSome (λ r. Fits o w r.0 r.1)

  abbrev Stored : ℕ → ℕ → String → Shared idlers set → Result Bool × Controller idlers set → Type 0
  Stored o w ns s r = Fits o w (stored idlers set ns s r).0 (stored idlers set ns s r).1

  created-Fits :
      (o w : ℕ) (ns : String) (a : Result InfoList) (ds : List InfoData) (s : Shared idlers set)
      → Fits o w (with_answer ns a) s
      → Stored o w ns s (create_for idlers set c (λ url n. a) ns s.controller ds)
  unfolding create_for
  created-Fits o w ns a [] s f = ground arith
  created-Fits o w ns a (d ∷ ds) s f =
      ground (arith, idlers.get-set s.controller.user_idlers ns (fresh idlers set c ns d) x)

  answered-Fits :
      (o w : ℕ) (ns : String) (a : Result InfoList) (s : Shared idlers set)
      → Fits o w (with_answer ns a) s
      → Stored o w ns s (create_from idlers set c (λ url n. a) ns s.controller a)
  unfolding create_from
  answered-Fits o w ns (err e) s f = ground arith
  answered-Fits o w ns (ok ti) s f = elim (Bool-cases (ltb_ℤ (pos 1) ti.total_count)) [
    | inl e ↦ rw e (ground arith)
    | inr e ↦ rw e (created-Fits o w ns (ok ti) ti.items s f)
  ]

  advance-Fits :
      (o w : ℕ) (ph : Phase) (m : Move) (s : Shared idlers set)
      → o ≤ 1
      → Fits o w ph s
      → Fitting o w (advance idlers set c ph m s)
  unfolding advance
  advance-Fits o w resting (call ns) s b f = ground arith
  advance-Fits o w (ended r) (call ns) s b f = ground arith
  advance-Fits o w (at_idlers ns) go s b f = ground (arith, eq_iff ns x)
  advance-Fits o w (at_unknown ns) go s b f = ground arith
  advance-Fits o w (at_tenant ns) (answer a) s b f = ground arith
  advance-Fits o w (with_answer ns a) go s b f = answered-Fits o w ns a s f
  advance-Fits o w (at_run ns) go s b f = ground arith
  advance-Fits o w _ _ s b f = tt

  -- the same of both goroutines
  abbrev AllFit : Pair idlers set → Type 0
  AllFit p = Fits (may_start x p.deploying) (will_start x p.deploying) p.building p.shared

  swapped-Fits :
      (ph other : Phase) (s : Shared idlers set)
      → Fits (may_start x other) (will_start x other) ph s
      → Fits (may_start x ph) (will_start x ph) other s
  swapped-Fits ph other s f = record {
    room = omega arith;
    from_map = λ h. omega (arith, f.from_map h);
  }

  may_start-le : (ph : Phase) → may_start x ph ≤ 1
  may_start-le ph = ground arith

  built_lem :
      (p : Pair idlers set) (a : Option (Phase × Shared idlers set))
      → Fitting (may_start x p.deploying) (will_start x p.deploying) a
      → OnSome AllFit (moved idlers set c builds p a)
  built_lem p none f = tt
  built_lem p (some (ph, s)) f = f

  deployed_lem :
      (p : Pair idlers set) (a : Option (Phase × Shared idlers set))
      → Fitting (may_start x p.building) (will_start x p.building) a
      → OnSome AllFit (moved idlers set c deployments p a)
  deployed_lem p none f = tt
  deployed_lem p (some (ph, s)) f = swapped-Fits ph p.building s f

  moved-AllFit :
      (w : Watcher) (p : Pair idlers set) (m : Move)
      → AllFit p
      → OnSome AllFit
          (moved idlers set c w p (advance idlers set c (phase_of idlers set c w p) m p.shared))
  moved-AllFit builds p m f =
      built_lem p (advance idlers set c p.building m p.shared)
        (advance-Fits _ _ p.building m p.shared (may_start-le p.deploying) f)
  moved-AllFit deployments p m f = deployed_lem p (advance idlers set c p.deploying m p.shared) (
      advance-Fits _ _ p.deploying m p.shared (may_start-le p.building)
        (swapped-Fits p.building p.deploying p.shared f))

  run-AllFit :
      (p : Pair idlers set) (es : List (Watcher × Move))
      → AllFit p
      → OnSome AllFit (run idlers set c p es)
  unfolding run
  run-AllFit p [] f = f
  run-AllFit p ((w, m) ∷ es) f = elim (Option-cases (step idlers set c p (w, m))) [
    | inl stuck ↦ rw (stuck, run) tt
    | inr (p', e) ↦
        rw (e, run) (run-AllFit p' es (OnSome-some AllFit _ p' (moved-AllFit w p m f) e))
  ]

-- In every run of the two watch goroutines of a cluster, in whatever order their steps of
-- createIfNotExist come and whatever the tenant service answers, at most two goroutines of user idlers
-- are started for a namespace; and one is started only if the map has a user idler for the namespace.
pub run-started_le :
    (idlers : ConcurrentMap Routine) (set : ConcurrentMap Bool) (c : Config)
    (s : Controller idlers set) (es : List (Watcher × Move)) (p : Pair idlers set) (x : String)
    → run idlers set c (at_rest idlers set s) es ≡ some p
    → (count x p.shared.started ≤ 2)
      × (0 < count x p.shared.started → idlers.get p.shared.controller.user_idlers x ≢ none)
run-started_le idlers set c s es p x h =
    let f =
      OnSome-some (AllFit idlers set c x) _ p
        (run-AllFit idlers set c x (at_rest idlers set s) es
          (record { room = omega arith; from_map = λ e. omega arith }))
        h in
    (omega (arith, f.room), λ some_started e. omega (arith, f.from_map e, some_started))

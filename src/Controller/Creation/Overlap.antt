-- ===== src/Controller/Creation/Overlap.antt =====
-- createIfNotExist called for one namespace by both watch goroutines at the same time, and the user
-- idler that gets no events thereby.
use fabric8_jenkins_idler.Common.{
  String, Bool, true, false, none, some, Result, ok, List, [], ◌∷◌, ◌≡◌, ◌≤ℤ◌, pos, ltb_ℤ, arith,
}
use fabric8_jenkins_idler.ConcurrentMap.{ConcurrentMap}
use fabric8_jenkins_idler.Util.{contains_string}
use fabric8_jenkins_idler.Tenant.{InfoList, InfoData}
use fabric8_jenkins_idler.UserIdler.Loop.{Routine}
use fabric8_jenkins_idler.Controller.Defs.{Config, Controller, create_from, create_for}
use fabric8_jenkins_idler.Controller.Users.{with_idler}
use fabric8_jenkins_idler.Controller.Events.{Watcher, builds, deployments}
use fabric8_jenkins_idler.Controller.Creation.{
  ended, Move, call, answer, go, at_rest, advance, step, run,
}

-- Both look before either stores.
abbrev pub overlapping : String → InfoList → InfoList → List (Watcher × Move)
overlapping ns ti tj =
    (builds, call ns)
    ∷ (deployments, call ns)
    ∷ (builds, go)
    ∷ (deployments, go)
    ∷ (builds, go)
    ∷ (deployments, go)
    ∷ (builds, answer (ok ti))
    ∷ (deployments, answer (ok tj))
    ∷ (builds, go)
    ∷ (builds, go)
    ∷ (deployments, go)
    ∷ (deployments, go)
    ∷ []

module _ (idlers : ConcurrentMap Routine) (set : ConcurrentMap Bool) (c : Config) where
  -- what an answer with a tenant leads to
  create_from_found :
      (tenant : String → String → Result InfoList) (ns : String) (s : Controller idlers set)
      (ti : InfoList) (d : InfoData) (ds : List InfoData)
      → ti.total_count ≤ℤ pos 1
      → ti.items ≡ d ∷ ds
      → create_from idlers set c tenant ns s (ok ti) ≡ (ok true, with_idler idlers set c s ns d)
  unfolding create_from create_for
  create_from_found tenant ns s ti d ds t e =
      let few : ltb_ℤ (pos 1) ti.total_count ≡ false = ground arith in rw (few, e)

  -- When both watch goroutines call createIfNotExist for a namespace that has no user idler and is not
  -- unknown, and both look before either stores, then each starts the goroutine of a user idler, if the
  -- tenant service gives a tenant to both. Both calls return true, and the map has the user idler of the
  -- second only.
  pub overlap_starts_two :
      (ns : String) (s : Controller idlers set) (ti tj : InfoList) (d e : InfoData)
      (ds es : List InfoData)
      → idlers.get s.user_idlers ns ≡ none
      → contains_string s.unknown_users ns ≡ false
      → ti.total_count ≤ℤ pos 1
      → ti.items ≡ d ∷ ds
      → tj.total_count ≤ℤ pos 1
      → tj.items ≡ e ∷ es
      → run idlers set c (at_rest idlers set s) (overlapping ns ti tj)
        ≡ some (record {
          shared = record {
            controller = with_idler idlers set c (with_idler idlers set c s ns d) ns e;
            started = ns ∷ ns ∷ [];
          };
          building = ended (ok true);
          deploying = ended (ok true);
        })
  unfolding run advance step
  overlap_starts_two ns s ti tj d e ds es none_yet not_unknown ti_few ti_has tj_few tj_has =
      let first = create_from_found (λ u n. ok ti) ns s ti d ds ti_few ti_has in
      let second =
        create_from_found (λ u n. ok tj) ns (with_idler idlers set c s ns d) tj e es tj_few
          tj_has in
      rw (none_yet, run, none_yet, run, not_unknown, run, not_unknown, run, first, run, second, run)

-- ===== src/Controller/Queued.antt =====
-- The handlers and the users that wait in a channel.
use fabric8_jenkins_idler.Common.{String, eq_refl, Bool, List, some, Result, ◌≡◌, sym, ap, ◌∙◌}
use fabric8_jenkins_idler.ConcurrentMap.{ConcurrentMap}
use fabric8_jenkins_idler.Model.{User, Object}
use fabric8_jenkins_idler.Tenant.{InfoList}
use fabric8_jenkins_idler.UserIdler.Loop.{Routine}
use fabric8_jenkins_idler.Controller.Defs.{Config, Controller, handle_build}
use fabric8_jenkins_idler.Controller.Builds.{handle_build_known}

module _ (idlers : ConcurrentMap Routine) (set : ConcurrentMap Bool) (c : Config) where
  -- the controller with other users in the channel of a namespace's idler
  abbrev pub with_queue :
      Controller idlers set → String → Routine → List User → Controller idlers set
  with_queue s ns r queue = record s {
    user_idlers = idlers.set s.user_idlers ns (record r { queue = queue });
  }

  -- What HandleBuild returns or sends on a namespace that has a user idler is the same whatever
  -- users wait in the idler's channel.
  pub handle_build_ignores_queue :
      (tenant : String → String → Result InfoList) (s : Controller idlers set) (o : Object)
      (r : Routine) (queue : List User)
      → idlers.get s.user_idlers o.object.metadata.namespace ≡ some r
      → (handle_build idlers set c tenant o (with_queue s o.object.metadata.namespace r queue)).0
        ≡ (handle_build idlers set c tenant o s).0
  handle_build_ignores_queue tenant s o r queue known =
      let ns = o.object.metadata.namespace in
      let s' = with_queue s ns r queue in
      let q : Routine = record r { queue = queue } in
      let there : idlers.get s'.user_idlers ns ≡ some q =
        rw (idlers.get-set s.user_idlers ns q ns, eq_refl ns) in
      ap (λ x. x.0) (handle_build_known idlers set c tenant s' o q there)
      ∙ sym (ap (λ x. x.0) (handle_build_known idlers set c tenant s o r known))

-- ===== src/Controller/Creation/Stray.antt =====
-- The user idler that createIfNotExist starts, until it receives a user.
use fabric8_jenkins_idler.Common.{
  String, Bool, true, pos, ◌<ℤ◌, some, [], ◌∷◌, ok, ◌≡◌, ◌↔◌, refl, arith, sym, ◌∙◌,
}
use fabric8_jenkins_idler.ConcurrentMap.{ConcurrentMap}
use fabric8_jenkins_idler.Model.{new_user}
use fabric8_jenkins_idler.Tenant.{InfoData}
use fabric8_jenkins_idler.Condition.Builds.{IsQuiet}
use fabric8_jenkins_idler.UserIdler.{
  Services, send_idle, ask_enabled, service_ref, check_idle, new_user_idler,
}
use fabric8_jenkins_idler.UserIdler.Decision.{IsUp, after_state}
use fabric8_jenkins_idler.UserIdler.Watched.{watched_exactly, IsIdleTime}
use fabric8_jenkins_idler.UserIdler.Loop.{Routine, start}
use fabric8_jenkins_idler.UserIdler.Loop
use fabric8_jenkins_idler.Controller.Defs.{Config}
use fabric8_jenkins_idler.Controller.Users.{fresh}

module _ (idlers : ConcurrentMap Routine) (set : ConcurrentMap Bool) (c : Config) (sv : Services)
    (ns : String) (d : InfoData) where
  abbrev pub new_routine : Routine
  new_routine = fresh idlers set c ns d

  abbrev pub MayIdle : Type 0
  MayIdle =
      (sv.is_idler_enabled [] d.id ≡ ok true)
      × (pos 0 <ℤ c.max_retries)
      × IsUp (sv.state (ask_enabled d.id ∷ []) (service_ref new_routine.machine.idler "jenkins"))

  idle_time : MayIdle → IsIdleTime c.idle_after c.idle_long_build sv new_routine.machine
  unfolding start new_user_idler new_user
  idle_time h = record {
    enabled = h.0;
    quiet = IsQuiet.no_builds refl refl;
    not_updated = λ u. u.0 refl;
    room = h.1;
    up = h.2;
  }

  -- The timer of a user idler that has received nothing since createIfNotExist started it asks
  -- OpenShift to idle Jenkins exactly if the idler is enabled for the user, a request is allowed, and
  -- Jenkins is above the idled state: whatever builds the user has.
  pub timer_idles_iff :
      (r : Routine)
      → Loop.step sv new_routine Loop.timer ≡ some r
      → (r.machine.calls
          ≡ send_idle (service_ref new_routine.machine.idler "jenkins")
            ∷ after_state sv new_routine.machine)
        ↔ MayIdle
  unfolding Loop.step start new_user_idler new_user
  timer_idles_iff r h =
      let (to, from) =
        (watched_exactly c.idle_after c.idle_long_build sv new_routine.machine refl).0 in
      let same : (check_idle sv new_routine.machine).1.calls ≡ r.machine.calls = ground arith in
      (
        λ sent. (let t = to (same ∙ sent) in (t.enabled, t.room, t.up)),
        λ may. sym same ∙ from (idle_time may),
      )

-- ===== src/Controller/Events.antt =====
-- The controller's two watch goroutines with the user idlers that they feed. A handler ends by
-- sendUserToIdler, which waits for room in the channel, for a second at most; so between an event and
-- the delivery of its user anything else may happen.
pub mod Kept
pub mod Handlers
pub mod Running
pub mod Separation
pub mod Sends
pub mod Flight
pub mod Disabled
pub mod Steps
pub mod Waking
pub mod Lost
pub mod Invariant
use fabric8_jenkins_idler.Common.{
  String, Bool, true, false, List, [], ◌∷◌, Option, none, some, Result, if◌then◌else◌,
}
use fabric8_jenkins_idler.ConcurrentMap.{ConcurrentMap}
use fabric8_jenkins_idler.Model.{User, Object, DcObject}
use fabric8_jenkins_idler.Tenant.{InfoList}
use fabric8_jenkins_idler.UserIdler.{Services}
use fabric8_jenkins_idler.UserIdler.Loop.{Routine}
use fabric8_jenkins_idler.UserIdler.Loop
use fabric8_jenkins_idler.Controller.Defs.{
  Config, Controller, Outcome, returned, sends, panicked, handle_build, handle_deployment_config,
}

-- the two goroutines of a cluster: watchBC and watchDC
pub data Watcher : Type 0 where
  builds deployments : Watcher

module _ (idlers : ConcurrentMap Routine) (set : ConcurrentMap Bool) where
  -- A goroutine that waits in sendUserToIdler holds the namespace and the user that it sends.
  pub record System : Type 0 where
    pub controller : Controller idlers set
    pub sending_build : Option (String × User)
    pub sending_dc : Option (String × User)

  -- NewController with the set of disabled users that the API shares, and an empty map of idlers
  unfoldable pub initial : set.Map → System
  initial disabled = record {
    controller = record { user_idlers = idlers.new; unknown_users = []; disabled_users = disabled };
    sending_build = none;
    sending_dc = none;
  }

  -- The events: the streams', with what the tenant service would answer now; the end of a send, by
  -- delivery or by the timeout; and those of a user idler's own goroutine.
  pub data Event : Type 0 where
    build_event : (String → String → Result InfoList) → Object → Event
    dc_event : (String → String → Result InfoList) → DcObject → Event
    delivered timed_out : Watcher → Event
    idler_event : String → Loop.Event → Event
    -- the API changed the set of disabled users
    users_changed : set.Map → Event

  abbrev pub sending : Watcher → System → Option (String × User)
  sending builds s = s.sending_build
  sending deployments s = s.sending_dc

  abbrev pub set_sending : Watcher → Option (String × User) → System → System
  set_sending builds x s = record s { sending_build = x }
  set_sending deployments x s = record s { sending_dc = x }

  -- what a handler leaves to send; the error is logged, and a panic ends the process
  abbrev pub handled : Watcher → System → Outcome × Controller idlers set → Option System
  handled w s (returned e, c) = some (record s { controller = c })
  handled w s (sends ns u, c) = some (set_sending w (some (ns, u)) (record s { controller = c }))
  handled w s (panicked, c) = none

  abbrev pub put_routine : String → System → Option Routine → Option System
  put_routine ns s none = none
  put_routine ns s (some r) = some (record s {
    controller = record s.controller { user_idlers = idlers.set s.controller.user_idlers ns r };
  })

  -- one event of the goroutine of a namespace's user idler
  unfoldable pub in_idler : Services → String → Loop.Event → System → Option Routine → Option System
  in_idler sv ns e s none = none
  in_idler sv ns e s (some r) = put_routine ns s (Loop.step sv r e)

  -- the case of the channel in sendUserToIdler's `select`
  unfoldable pub deliver :
      (String → Services) → Watcher → System → Option (String × User) → Option System
  unfolding in_idler
  deliver services w s none = none
  deliver services w s (some (ns, u)) =
      in_idler (services ns) ns (Loop.send u) (set_sending w none s)
        (idlers.get s.controller.user_idlers ns)

  abbrev pub give_up : Watcher → System → Option (String × User) → Option System
  give_up w s none = none
  give_up w s (some x) = some (set_sending w none s)

  module _ (c : Config) (services : String → Services) where
    -- a watch goroutine handles an event if it is not still sending
    unfoldable pub on_build :
        (String → String → Result InfoList)
        → Object
        → System
        → Option (String × User)
        → Option System
    on_build tenant o s none = handled builds s (handle_build idlers set c tenant o s.controller)
    on_build tenant o s (some x) = none

    unfoldable pub on_dc :
        (String → String → Result InfoList)
        → DcObject
        → System
        → Option (String × User)
        → Option System
    on_dc tenant o s none =
        handled deployments s (handle_deployment_config idlers set c tenant o s.controller)
    on_dc tenant o s (some x) = none

    -- `none` is an event that cannot happen now, or a panic.
    unfoldable pub step : System → Event → Option System
    unfolding on_build on_dc deliver
    step s (build_event tenant o) = on_build tenant o s s.sending_build
    step s (dc_event tenant o) = on_dc tenant o s s.sending_dc
    step s (delivered w) = deliver services w s (sending w s)
    step s (timed_out w) = give_up w s (sending w s)
    step s (users_changed d) =
        some (record s { controller = record s.controller { disabled_users = d } })
    step s (idler_event ns (Loop.send u)) = none
    step s (idler_event ns e) =
        in_idler (services ns) ns e s (idlers.get s.controller.user_idlers ns)

    unfoldable pub run : System → List Event → Option System
    unfolding step
    run s [] = some s
    run s (e ∷ es) = elim (step s e) [ none ↦ none | some s' ↦ run s' es ]

-- ===== src/Controller/UserIdlerMap.antt =====
-- internal/openshift/user_idler_map.go: the map from namespaces to user idlers.
use fabric8_jenkins_idler.Common.{String, Option}
use fabric8_jenkins_idler.ConcurrentMap.{ConcurrentMap}
use fabric8_jenkins_idler.UserIdler.Loop.{Routine}

module _ (idlers : ConcurrentMap Routine) where
  -- NewUserIdlerMap
  abbrev pub new_user_idler_map : idlers.Map
  new_user_idler_map = idlers.new

  -- Load, with no value for the pair of nil and false
  abbrev pub load : idlers.Map → String → Option Routine
  load m namespace = idlers.get m namespace

  -- Store
  abbrev pub store : idlers.Map → String → Routine → idlers.Map
  store m namespace i = idlers.set m namespace i

-- ===== src/Controller/UnknownUsersMap.antt =====
-- internal/openshift/unknown_users_map.go: the namespaces that the tenant service did not know. Every
-- value that is stored is nil, so that the map is the list of its keys.
use fabric8_jenkins_idler.Common.{String, Bool, List, [], ◌∷◌}
use fabric8_jenkins_idler.Util.{contains_string}

-- NewUnknownUsersMap
abbrev pub new_unknown_users_map : List String
new_unknown_users_map = []

-- the second result of Load
abbrev pub load : List String → String → Bool
load m user = contains_string m user

-- Store of nil
abbrev pub store : List String → String → List String
store m user = user ∷ m

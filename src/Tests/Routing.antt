-- ===== src/Tests/Routing.antt =====
-- A request to the server of the API, by a router of the routes of one namespace.
use fabric8_jenkins_idler.Common.{
  String, ◌==◌, eq_iff, trim_space, Bool, true, not, ◌||◌, ◌&&◌, List, [], ◌∷◌, Option, none, some,
  ok, err, Any, ◌≡◌, ◌⊎◌, ◌↔◌, refl, arith, if◌then◌else◌,
}
use fabric8_jenkins_idler.Model.{pod_idled}
use fabric8_jenkins_idler.Model.StringSet.{has}
use fabric8_jenkins_idler.Util.{contains_string}
use fabric8_jenkins_idler.Cluster.{get_token}
use fabric8_jenkins_idler.UserIdler.Requests.{idle_requests, un_idle_requests}
use fabric8_jenkins_idler.Api.{header, un_idle, UserStatus}
use fabric8_jenkins_idler.Api.Laws.{unlike, users_of}
use fabric8_jenkins_idler.Router.{
  Handle, set_status_handle, get_disabled_handle, Route, Incoming, Backend, Served,
  create_api_router, add_metrics, api_routes, serve,
}
use fabric8_jenkins_idler.Router.Effects.{Finds, Asks, serve_changes_only}
use fabric8_jenkins_idler.Router.Listed.{Reaches, serve_all, lists_what_was_set}
use fabric8_jenkins_idler.Tests.Data.{soon, answering, set, cluster_1}

abbrev fits : String → String → Bool
fits pattern path =
    (pattern == path)
    || ((pattern == "/api/idler/unidle/:namespace") && (path == "/api/idler/unidle/alice-jenkins"))

abbrev serves : Route → String → String → Bool
serves x method path = (x.method == method) && fits x.path path

abbrev find : List Route → String → String → Option (Handle × String)
find [] method path = none
find (x ∷ xs) method path =
    let rest = find xs method path in
    if serves x method path then some (x.handle, "alice-jenkins") else rest

abbrev backend : Backend
backend = record {
  services = answering soon pod_idled;
  clusters = cluster_1 ∷ [];
  client_reset = λ api token ns. none;
  metrics = header 200;
  lookup = find;
  unrouted = λ method path. header 404;
}

backend-Finds : Finds fits backend
backend-Finds [] method path h ns e = cc
backend-Finds (x ∷ xs) method path h ns e =
    ground (arith, eq_iff x.method method, backend-Finds xs method path h ns)

abbrev un_idle_alice : Incoming
un_idle_alice = record {
  method = "GET";
  path = "/api/idler/unidle/alice-jenkins";
  openshift_api_url = "https://api" ∷ [];
  user_status = err "EOF";
}

abbrev quiet : Served set
quiet = record { calls = []; disabled = set.new }

woken_once : un_idle_requests (serve set backend api_routes un_idle_alice quiet).1.calls ≡ 1
unfolding serve add_metrics create_api_router un_idle get_token trim_space
woken_once = refl

serve_changes_only_example :
    let t = (serve set backend api_routes un_idle_alice quiet).1 in
    ((idle_requests t.calls ≡ 0)
      ⊎ Asks fits un_idle_alice "GET" "/api/idler/idle/:namespace" "/api/idler/idle/:namespace/")
    × ((un_idle_requests t.calls ≡ 0)
        ⊎ Asks fits un_idle_alice "GET" "/api/idler/unidle/:namespace"
            "/api/idler/unidle/:namespace/")
    × ((t.disabled ≡ set.new)
        ⊎ Asks fits un_idle_alice "POST" "/api/idler/userstatus" "/api/idler/userstatus/")
serve_changes_only_example = serve_changes_only set fits backend backend-Finds un_idle_alice quiet

abbrev change_users : UserStatus
change_users = record { disable = "alice" ∷ "bob" ∷ []; enable = "bob" ∷ [] }

abbrev set_users : Incoming
set_users = record un_idle_alice {
  method = "POST";
  path = "/api/idler/userstatus";
  user_status = ok change_users;
}

abbrev list_users : Incoming
list_users = record un_idle_alice { path = "/api/idler/userstatus/" }

set_users-Reaches : Reaches backend set_users set_status_handle
unfolding add_metrics create_api_router
set_users-Reaches = ("alice-jenkins", refl)

list_users-Reaches : Reaches backend list_users get_disabled_handle
unfolding add_metrics create_api_router
list_users-Reaches = ("alice-jenkins", refl)

lists_what_was_set_example :
    let before = serve_all set backend (set_users ∷ un_idle_alice ∷ []) quiet in
    Any (λ x. x ≡ "alice") (users_of set (serve set backend api_routes list_users before).0.body)
    ↔ ((not (contains_string ("bob" ∷ []) "alice")
          && (contains_string ("alice" ∷ "bob" ∷ []) "alice" || has set set.new "alice"))
        ≡ true)
lists_what_was_set_example =
    lists_what_was_set set backend fits backend-Finds set_users list_users (un_idle_alice ∷ [])
      change_users quiet set_users-Reaches refl (unlike "GET" "POST" refl, tt) list_users-Reaches
      "alice"

-- ===== src/Condition/Defs.antt =====
-- internal/condition/condition.go, build_condition.go, deployment_config_condition.go and
-- user_condition.go. `Eval` returns its action beside its error. The log calls are left out.
use fabric8_jenkins_idler.Common.{
  String, GoError, ℕ, ◌*◌, ℤ, pos, ltb_ℤ, Time, second, is_zero, add_duration, after, sub_time,
  unix, ltb, nat_beq, not, ◌&&◌, ◌==◌, ◌<>◌, List, [], ◌∷◌, Option, none, some, Result, ok, err,
  ◌>>=◌, if◌then◌else◌,
}
use fabric8_jenkins_idler.Http.{Response, status_ok}
use fabric8_jenkins_idler.Model.{User, has_active_builds, has_builds}
use fabric8_jenkins_idler.Util.{MultiError, collect}

pub data Action : Type 0 where
  no_action idle un_idle : Action

-- the constant's `int`
abbrev pub rank : Action → ℕ
rank no_action = 0
rank idle = 1
rank un_idle = 2

-- The `interface{}` that `Eval` takes: a user, or a value of a type with another name.
pub data Target : Type 0 where
  user : User → Target
  other : String → Target

-- The pair that `Eval` returns.
abbrev pub Verdict : Type 0
Verdict = Action × Option GoError

abbrev pub not_a_user : String → GoError
not_a_user type_name = type_name <> " is not of type User"

pub record BuildCondition : Type 0 where
  pub idle_after : ℤ
  pub idle_long_build : ℤ

-- BuildCondition.Eval on a user, at the instant `now`
unfoldable pub build_action : BuildCondition → Time → User → Action
unfolding has_builds
build_action c now u =
    if not (has_builds u)
    then idle
    else if has_active_builds u
    then (let started = u.active_build.status.start_timestamp in
        if after now (add_duration started c.idle_long_build)
        then idle
        else if u.active_build.status.phase == "New"
            && ltb (2 * second) (sub_time u.active_build.status.completion_timestamp started)
        then idle
        else un_idle)
    else if u.done_build.status.phase == "Cancelled"
    then idle
    else if after now (add_duration u.done_build.status.completion_timestamp c.idle_after)
    then idle
    else un_idle

unfoldable pub build_eval : BuildCondition → Time → Target → Verdict
unfolding build_action
build_eval c now (user u) = (build_action c now u, none)
build_eval c now (other t) = (no_action, some (not_a_user t))

pub record DcCondition : Type 0 where
  pub idle_after : ℤ

-- DeploymentConfigCondition.Eval on a user
unfoldable pub dc_action : DcCondition → Time → User → Action
dc_action c now u =
    if is_zero u.jenkins_last_update
    then no_action
    else if after now (add_duration u.jenkins_last_update c.idle_after)
    then idle
    else un_idle

unfoldable pub dc_eval : DcCondition → Time → Target → Verdict
unfolding dc_action
dc_eval c now (user u) = (dc_action c now u, none)
dc_eval c now (other t) = (no_action, some (not_a_user t))

pub record ProxyResponse : Type 0 where
  pub namespace : String
  pub requests : ℤ
  pub last_visit : ℤ
  pub last_request : ℤ

pub record UserCondition : Type 0 where
  pub idle_after : ℤ
  pub proxy_url : String

-- What an evaluation reads from outside: the clock at the evaluation of a named condition, the
-- answer to `http.Get`, and `json.Unmarshal` into a `ProxyResponse`.
pub record Outside : Type 0 where
  pub clock : String → Time
  pub http_get : String → Result Response
  pub unmarshal : String → Result ProxyResponse

-- getProxyResponse
unfoldable pub get_proxy_response : Outside → UserCondition → String → Result ProxyResponse
get_proxy_response o c user_name = do
  resp ← o.http_get (c.proxy_url <> ("/api/info/" <> (user_name <> "-jenkins")))
  body ← resp.body
  if nat_beq resp.status_code status_ok then o.unmarshal body else err resp.status

-- UserCondition.Eval on the proxy's answer
unfoldable pub proxy_action : UserCondition → Time → ProxyResponse → Action
proxy_action c now r =
    if ltb_ℤ (pos 0) r.requests
    then un_idle
    else if after now (add_duration (unix r.last_visit) c.idle_after)
        && after now (add_duration (unix r.last_request) c.idle_after)
    then idle
    else un_idle

unfoldable pub user_eval : Outside → UserCondition → Time → Target → Verdict
unfolding get_proxy_response proxy_action
user_eval o c now (user u) = elim (get_proxy_response o c u.name) [
  | ok r ↦ (proxy_action c now r, none)
  | err e ↦ (no_action, some e)
]
user_eval o c now (other t) = (no_action, some (not_a_user t))

-- the implementations of the interface `Condition`
pub data Condition : Type 0 where
  build : BuildCondition → Condition
  dc : DcCondition → Condition
  proxied : UserCondition → Condition

unfoldable pub eval_one : Outside → String → Condition → Target → Verdict
unfolding build_eval dc_eval user_eval
eval_one o name (build c) t = build_eval c (o.clock name) t
eval_one o name (dc c) t = dc_eval c (o.clock name) t
eval_one o name (proxied c) t = user_eval o c (o.clock name) t

-- The map of conditions, in the order in which `range` visits it.
abbrev pub Conditions : Type 0
Conditions = List (String × Condition)

-- Add: a key of the map has one condition.
unfoldable pub add : String → Condition → Conditions → Conditions
add name c [] = (name, c) ∷ []
add name c ((key, d) ∷ cs) = if key == name then (name, c) ∷ cs else (key, d) ∷ add name c cs

-- `if action > result { result = action }`
abbrev pub raise : Action → Action → Action
raise result action = if ltb (rank result) (rank action) then action else result

-- the loop of Conditions.Eval over the rest of the map, from a result and the errors so far
unfoldable pub eval_loop : Outside → Target → Conditions → Action → MultiError → Action × MultiError
unfolding collect
eval_loop o t [] result errors = (result, errors)
eval_loop o t ((name, c) ∷ cs) result errors =
    let (action, e) = eval_one o name c t in
    eval_loop o t cs (raise result action) (collect e errors)

-- Conditions.Eval
unfoldable pub eval : Outside → Conditions → Target → Action × MultiError
unfolding eval_loop
eval o cs (user u) = eval_loop o (user u) cs no_action []
eval o cs (other t) = (no_action, not_a_user t ∷ [])

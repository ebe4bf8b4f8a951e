-- ===== src/UserIdler/Defs.antt =====
-- internal/idler/user_idler.go: the state of a user idler and its methods. The fields that no
-- method reads again (logger, config) and the log calls are left out.
use fabric8_jenkins_idler.Common.{
  String, GoError, ℕ, ◌+◌, ℤ, pos, leb_ℤ, eqb_ℤ, mul64, minute, hour, is_zero, Bool, not, ◌<>◌,
  List, [], ◌∷◌, Option, none, some, Result, ok, err, if◌then◌else◌,
}
use fabric8_jenkins_idler.Util.{empty, to_error}
use fabric8_jenkins_idler.Model.{PodState, pod_idled, User, new_idle_status, new_unidle_status}
use fabric8_jenkins_idler.Condition.{
  Action, no_action, idle, un_idle, user, Conditions, dc, build, add, eval,
}
use fabric8_jenkins_idler.UserIdler.Interfaces.{
  ServiceRef, Call, ask_enabled, ask_state, ask_capacity, send_idle, send_un_idle, Services,
}

abbrev pub jenkins_services : List String
jenkins_services = "jenkins" ∷ []

abbrev pub jenkins_namespace_suffix : String
jenkins_namespace_suffix = "-jenkins"

abbrev pub jenkins_service_name : String
jenkins_service_name = "jenkins"

pub record UserIdler : Type 0 where
  pub open_shift_api : String
  pub open_shift_bearer_token : String
  pub max_retries : ℤ
  pub idle_attempts : ℕ
  pub un_idle_attempts : ℕ
  pub conditions : Conditions
  pub user : User

-- createWatchConditions, with the products of Go's 64 bits
unfoldable pub create_watch_conditions : ℤ → ℤ → Conditions
create_watch_conditions idle_after idle_long_build =
    add "build"
      (build (record {
        idle_after = mul64 idle_after minute;
        idle_long_build = mul64 idle_long_build hour;
      }))
      (add "dc" (dc (record { idle_after = mul64 idle_after minute })) [])

-- NewUserIdler
unfoldable pub new_user_idler : User → String → String → ℤ → ℤ → ℤ → UserIdler
unfolding create_watch_conditions
new_user_idler u api token max_retries idle_after idle_long_build = record {
  open_shift_api = api;
  open_shift_bearer_token = token;
  max_retries = max_retries;
  idle_attempts = 0;
  un_idle_attempts = 0;
  conditions = create_watch_conditions idle_after idle_long_build;
  user = u;
}

-- the idler with the calls that it has made, newest first
pub record Machine : Type 0 where
  pub idler : UserIdler
  pub open idler use *
  pub calls : List Call

-- A method that returns an error, or a value.
abbrev pub Exec : Type 0 → Type 0
Exec A = Machine → Result A × Machine

abbrev pub pure : {A : Type 0} → A → Exec A
pure a m = (ok a, m)

infixl 10 ◌>>=◌ ◌>>◌
abbrev pub ◌>>=◌ : {A B : Type 0} → Exec A → (A → Exec B) → Exec B
◌>>=◌ x f m = let (r, m') = x m in elim r [ ok a ↦ f a m' | err e ↦ (err e, m') ]

abbrev pub ◌>>◌ : {B : Type 0} → Exec (Unit {0}) → Exec B → Exec B
x >> y = x >>= λ _. y

abbrev pub gets : {A : Type 0} → (Machine → A) → Exec A
gets f m = (ok (f m), m)

abbrev pub update : (UserIdler → UserIdler) → Exec (Unit {0})
update f m = (ok tt, record m { idler = f m.idler })

-- one call of a service: its answer by the calls before it, and its record
abbrev pub ask : {A : Type 0} → Call → (List Call → Result A) → Exec A
ask c answer m = (answer m.calls, record m { calls = c ∷ m.calls })

abbrev pub unless_error : Option GoError → Result (Unit {0})
unless_error none = ok tt
unless_error (some e) = err e

abbrev pub namespace_of : UserIdler → String
namespace_of i = i.user.name <> jenkins_namespace_suffix

abbrev pub service_ref : UserIdler → String → ServiceRef
service_ref i service = record {
  api_url = i.open_shift_api;
  bearer_token = i.open_shift_bearer_token;
  namespace = namespace_of i;
  service = service;
}

module _ (sv : Services) where
  -- isIdlerEnabled
  unfoldable pub is_idler_enabled : Exec Bool
  is_idler_enabled m = ask (ask_enabled m.user.id) (λ h. sv.is_idler_enabled h m.user.id) m

  -- getJenkinsState
  unfoldable pub get_jenkins_state : Exec PodState
  get_jenkins_state m =
      let ref = service_ref m.idler jenkins_service_name in
      ask (ask_state ref) (λ h. sv.state h ref) m

  -- the loop of doIdle over the services
  unfoldable pub idle_services : List String → Exec (Unit {0})
  idle_services [] = pure tt
  idle_services (service ∷ rest) = do
    ref ← gets (λ m. service_ref m.idler service)
    ask (send_idle ref) (λ h. unless_error (sv.idle h ref))
    idle_services rest

  unfoldable pub do_idle : Exec (Unit {0})
  unfolding get_jenkins_state idle_services
  do_idle = do
    i ← gets (λ m. m.idler)
    if leb_ℤ i.max_retries (pos i.idle_attempts) then pure tt else do
      state ← get_jenkins_state
      if leb_ℤ state pod_idled then pure tt else do
        update (λ j. record j { idle_attempts = j.idle_attempts + 1 })
        idle_services jenkins_services

  -- the loop of doUnIdle over the services
  unfoldable pub un_idle_services : List String → Exec (Unit {0})
  un_idle_services [] = pure tt
  un_idle_services (service ∷ rest) = do
    ref ← gets (λ m. service_ref m.idler service)
    ask (send_un_idle ref) (λ h. unless_error (sv.un_idle h ref))
    un_idle_services rest

  -- the end of doUnIdle
  unfoldable pub note_last_update : Exec (Unit {0})
  note_last_update = do
    u ← gets (λ m. m.user)
    now ← gets (λ m. sv.now m.calls)
    if is_zero u.jenkins_last_update
        then update (λ j. record j { user = record u { jenkins_last_update = now } })
        else pure tt

  unfoldable pub do_un_idle : Exec (Unit {0})
  unfolding get_jenkins_state un_idle_services note_last_update
  do_un_idle = do
    i ← gets (λ m. m.idler)
    if leb_ℤ i.max_retries (pos i.un_idle_attempts) then pure tt else do
      state ← get_jenkins_state
      if not (eqb_ℤ state pod_idled) then pure tt else do
        let ns = namespace_of i
        cluster_full ←
            ask (ask_capacity i.open_shift_api ns)
              (λ h. sv.has_reached_max_capacity h i.open_shift_api ns)
        if cluster_full
            then (λ m. (
              err ("Maximum Resource limit reached on " <> (i.open_shift_api <> (" for " <> ns))),
              m,
            ))
            else do
              update (λ j. record j { un_idle_attempts = j.un_idle_attempts + 1 })
              un_idle_services jenkins_services
              note_last_update

  -- the action of checkIdle: only a nil error reaches NewIdleStatus and NewUnidleStatus
  unfoldable pub act : Action → Exec (Unit {0})
  unfolding do_idle do_un_idle
  act idle = do
    do_idle
    now ← gets (λ m. sv.now m.calls)
    update (λ j. record j { user = record j.user { idle_status = new_idle_status now none } })
  act un_idle = do
    do_un_idle
    now ← gets (λ m. sv.now m.calls)
    update (λ j. record j { user = record j.user { idle_status = new_unidle_status now none } })
  act no_action = pure tt

  unfoldable pub check_idle : Exec (Unit {0})
  unfolding is_idler_enabled act
  check_idle = do
    enabled ← is_idler_enabled
    if not enabled then pure tt else do
      (action, errors) ← gets (λ m. eval (sv.outside m.calls) m.conditions (user m.user))
      if not (empty errors)
          then (λ m. (unless_error (to_error sv.sprintf errors), m))
          else act action

unfoldable pub reset_counters : UserIdler → UserIdler
reset_counters i = record i { idle_attempts = 0; un_idle_attempts = 0 }

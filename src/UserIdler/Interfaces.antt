-- ===== src/UserIdler/Interfaces.antt =====
-- The interfaces that a user idler calls (client.OpenShiftClient, tenant.Service and
-- toggles.Features), the clock and `fmt`. The environment answers each call as it likes, by all the
-- calls that it was sent before; the calls are recorded, newest first.
use fabric8_jenkins_idler.Common.{String, GoError, Time, Bool, List, Option, Result}
use fabric8_jenkins_idler.Model.{PodState}
use fabric8_jenkins_idler.Condition.{Outside}

-- the API URL, the token, the namespace and the service of a call of the OpenShift client
pub record ServiceRef : Type 0 where
  pub api_url : String
  pub bearer_token : String
  pub namespace : String
  pub service : String

pub data Call : Type 0 where
  -- features.IsIdlerEnabled
  ask_enabled : String → Call
  -- openShiftClient.State
  ask_state : ServiceRef → Call
  -- tenantService.HasReachedMaxCapacity
  ask_capacity : String → String → Call
  -- openShiftClient.Idle and openShiftClient.UnIdle
  send_idle send_un_idle : ServiceRef → Call

pub record Services : Type 0 where
  pub is_idler_enabled : List Call → String → Result Bool
  pub state : List Call → ServiceRef → Result PodState
  pub has_reached_max_capacity : List Call → String → String → Result Bool
  pub idle : List Call → ServiceRef → Option GoError
  pub un_idle : List Call → ServiceRef → Option GoError
  pub outside : List Call → Outside
  pub now : List Call → Time
  -- `fmt.Errorf` of a text that is its own format
  pub sprintf : String → String

-- ===== src/Model/Openshift.antt =====
-- internal/model/openshift_objects.go: the OpenShift objects that the idler reads and writes.
use fabric8_jenkins_idler.Common.{
  String, ℕ, Time, ℤ, pos, ltb_ℤ, eqb_ℤ, ◌==◌, ◌||◌, ◌<>◌, List, Option, Result, ok, err, some,
  none, find_first, if◌then◌else◌, zero_time,
}

pub record Annotations : Type 0 where
  pub build_number : String
  pub jenkins_namespace : String
  pub idled_at : String
  pub unidle_targets : String
  pub prev_scale : String

pub record Metadata : Type 0 where
  pub name : String
  pub namespace : String
  pub annotations : Annotations
  pub generation : ℤ

-- `BuildTime` is the instant itself.
pub record Status : Type 0 where
  pub phase : String
  pub start_timestamp : Time
  pub completion_timestamp : Time

pub record Strategy : Type 0 where
  pub type : String

pub record Spec : Type 0 where
  pub replicas : ℤ
  pub strategy : Strategy

pub record Build : Type 0 where
  pub metadata : Metadata
  pub status : Status
  pub spec : Spec

-- Go's zero values, from which struct literals leave fields out
abbrev pub no_annotations : Annotations
no_annotations = record {
  build_number = "";
  jenkins_namespace = "";
  idled_at = "";
  unidle_targets = "";
  prev_scale = "";
}

abbrev pub no_metadata : Metadata
no_metadata = record { name = ""; namespace = ""; annotations = no_annotations; generation = pos 0 }

abbrev pub no_status : Status
no_status = record { phase = ""; start_timestamp = zero_time; completion_timestamp = zero_time }

abbrev pub no_spec : Spec
no_spec = record { replicas = pos 0; strategy = record { type = "" } }

abbrev pub no_build : Build
no_build = record { metadata = no_metadata; status = no_status; spec = no_spec }

-- an event of the build stream
pub record Object : Type 0 where
  pub type : String
  pub object : Build

pub record Condition : Type 0 where
  pub type : String
  pub last_update_time : Time
  pub status : String

pub record DcStatus : Type 0 where
  pub replicas : ℤ
  pub ready_replicas : ℤ
  pub conditions : List Condition
  pub observed_generation : ℤ
  pub unavailable_replicas : ℤ

pub record DeploymentConfig : Type 0 where
  pub metadata : Metadata
  pub status : DcStatus
  pub spec : Spec

-- an event of the deployment config stream
pub record DcObject : Type 0 where
  pub type : String
  pub object : DeploymentConfig

pub record Endpoint : Type 0 where
  pub metadata : Metadata

pub record Scale : Type 0 where
  pub kind : String
  pub api_version : String
  pub metadata : Metadata
  pub replicas : ℤ

abbrev pub found_condition : String → Option Condition → Result Condition
found_condition t (some c) = ok c
found_condition t none = err ("could not find condition '" <> (t <> "'"))

-- DCStatus.GetByType: the first condition of the type
unfoldable pub get_by_type : DcStatus → String → Result Condition
get_by_type s t = found_condition t (find_first (λ c. c.type == t) s.conditions)

-- `PodState` is an `int` with these constants.
abbrev pub PodState : Type 0
PodState = ℤ

abbrev pub pod_state_unknown : PodState
pod_state_unknown = pos 0

abbrev pub pod_idled : PodState
pod_idled = pos 1

abbrev pub pod_starting : PodState
pod_starting = pos 2

abbrev pub pod_running : PodState
pod_running = pos 3

-- PodState.String
unfoldable pub pod_state_string : PodState → String
pod_state_string state =
    if ltb_ℤ state pod_state_unknown || ltb_ℤ pod_running state
    then "unknown"
    else if eqb_ℤ state pod_idled
    then "idled"
    else if eqb_ℤ state pod_starting
    then "starting"
    else if eqb_ℤ state pod_running
    then "running"
    else "unknown"

-- `Phases[phase]`, which is 0 for a key that the map does not have
unfoldable pub phases : String → ℕ
phases p =
    if p == "Finished" || p == "Complete" || p == "Failed" || p == "Cancelled"
    then 0
    else if p == "Pending" || p == "New" || p == "Running"
    then 1
    else 0

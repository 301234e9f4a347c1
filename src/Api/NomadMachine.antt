-- ===== src/Api/NomadMachine.antt =====
-- NomadMachine: api/v1alpha3/nomadmachine_types.go, and the deployment of api/v1alpha3/types.go.
-- The pointers of Go are `Option`; a MachineStatus is the text that Nomad reports.
use cluster_api_provider_nom.Base.{ℕ, String, Bool, Option, List}
use cluster_api_provider_nom.Api.Meta.{ObjectMeta, MachineAddress, ConditionList}

abbrev pub machine_finalizer : String
machine_finalizer = "nomadcluster.infrastructure.cluster.x-k8s.io"

abbrev pub MachineStatus : Type 0
MachineStatus = String

abbrev pub machine_state_running : MachineStatus
machine_state_running = "running"

abbrev pub machine_state_successful : MachineStatus
machine_state_successful = "successful"

pub record NomadMachineSpec : Type 0 where
  pub failure_domain : Option String
  pub provider_id : Option String
  pub cpu : ℕ
  pub memory_mb : ℕ
  pub debug_vnc : Option String
  pub image : String

pub record NomadMachineStatus : Type 0 where
  pub ready : Bool
  pub deployment_status : Option MachineStatus
  pub status_description : Option String
  pub dns_attached : Bool
  pub addresses : List MachineAddress
  pub conditions : ConditionList
  pub failure_reason : Option String
  pub failure_message : Option String

pub record NomadMachine : Type 0 where
  pub meta : ObjectMeta
  pub spec : NomadMachineSpec
  pub status : NomadMachineStatus

abbrev pub get_conditions : NomadMachine → ConditionList
get_conditions m = m.status.conditions

abbrev pub set_conditions : NomadMachine → ConditionList → NomadMachine
set_conditions m cs = record m { status = record (m.status) { conditions = cs } }

-- `Machine` of types.go: what the provider knows of a Nomad deployment.
pub record Deployed : Type 0 where
  pub job_id : String
  pub deployment_id : String
  pub status : MachineStatus
  pub status_description : String
  pub addresses : List MachineAddress

-- ===== src/World/Wire.antt =====
-- The data that goes to the remote systems and comes back: Nomad's jobs, evaluations and
-- deployments, HTTP requests and responses, and the calls that a run makes.
use cluster_api_provider_nom.Base.{ℕ, String, Bool, Option, List}
use cluster_api_provider_nom.World.Error.{Error, Result}
use cluster_api_provider_nom.Api.Meta.{ObjectMeta, ObjectKey}
use cluster_api_provider_nom.Api.NomadMachine.{NomadMachine}
use cluster_api_provider_nom.Api.NomadCluster.{NomadCluster}

-- api.Template: the fields that the provider sets; a nil delimiter is `none`.
pub record Template : Type 0 where
  pub dest_path : String
  pub embedded_tmpl : String
  pub left_delim : Option String
  pub right_delim : Option String

-- api.Task, with its configuration's three entries and its resources.
pub record Task : Type 0 where
  pub task_name : String
  pub driver : String
  pub image_path : String
  pub accelerator : String
  pub args : List String
  pub cores : ℕ
  pub memory_mb : ℕ
  pub artifacts : List String
  pub templates : List Template

pub record TaskGroup : Type 0 where
  pub group_name : String
  pub tasks : List Task

-- api.Job.
pub record Job : Type 0 where
  pub region : String
  pub namespace : String
  pub job_name : String
  pub id : String
  pub datacenters : List String
  pub task_groups : List TaskGroup

-- api.Evaluation and api.Deployment: the fields that the provider reads.
pub record Evaluation : Type 0 where
  pub id : String
  pub status : String
  pub deployment_id : String

pub record Deployment : Type 0 where
  pub job_id : String
  pub id : String
  pub status : String
  pub status_description : String

-- The configuration of a Nomad client.
pub record NomadConfig : Type 0 where
  pub address : String
  pub secret_id : String
  pub region : String

-- The Consul service of pkg/consulclient/service.go, which is the body of a registration.
pub record Service : Type 0 where
  pub name : String
  pub id : String
  pub tags : List String
  pub address : String
  pub port : ℕ

pub data Method : Type 0 where
  get put : Method

-- What `json.Marshal` is given: nil, or a service.
pub data Body : Type 0 where
  null : Body
  service : Service → Body

-- `payload` is nil for a GET.
pub record Request : Type 0 where
  pub method : Method
  pub url : String
  pub payload : Option Body
  pub headers : List (String × String)

-- A response: its status code, what reading its whole body gives, and what closing the body gives.
pub record Response : Type 0 where
  pub status_code : ℕ
  pub body : Result String
  pub close_error : Option Error

pub data EventType : Type 0 where
  normal warning : EventType

-- One call of the world, as it is recorded.
pub data Call : Type 0 where
  get_object : String → ObjectKey → Call
  get_owner : String → ObjectMeta → Call
  list_machines : String → String → Call
  patch_nomad_machine : NomadMachine → Call
  patch_nomad_cluster : NomadCluster → Call
  get_remote_client : ObjectKey → Call
  list_nodes : Call
  get_node : String → Call
  patch_node : String → String → Call
  register_job : NomadConfig → Job → Call
  deregister_job : NomadConfig → String → Bool → Call
  read_evaluation : NomadConfig → String → Call
  read_deployment : NomadConfig → String → Call
  send_http : Request → Call
  read_env : String → Call
  sleep : ℕ → Call
  record_event : EventType → String → String → Call

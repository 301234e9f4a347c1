-- ===== src/World/Remote.antt =====
-- The remote systems, as operations on one state: the management cluster's API (client.Client and
-- cluster-api's util), the workload cluster's API behind the tracker, Nomad, an HTTP transport, the
-- process's environment, and time.
use cluster_api_provider_nom.Base.{ℕ, String, Bool, Option, List}
use cluster_api_provider_nom.World.Error.{Error, Result}
use cluster_api_provider_nom.World.Wire.{
  NomadConfig, Job, Evaluation, Deployment, Request, Response,
}
use cluster_api_provider_nom.Api.Meta.{ObjectMeta, ObjectKey, Machine, Cluster}
use cluster_api_provider_nom.Api.NomadMachine.{NomadMachine}
use cluster_api_provider_nom.Api.NomadCluster.{NomadCluster}

pub record World : Type 1 where
  pub State : Type 0
  pub get_nomad_machine : ObjectKey → State → Result NomadMachine × State
  pub get_nomad_cluster : ObjectKey → State → Result NomadCluster × State
  pub get_cluster : ObjectKey → State → Result Cluster × State
  -- A secret's data.
  pub get_secret : ObjectKey → State → Result (List (String × String)) × State
  pub get_owner_machine : ObjectMeta → State → Result (Option Machine) × State
  pub get_owner_cluster : ObjectMeta → State → Result (Option Cluster) × State
  pub get_cluster_from_metadata : ObjectMeta → State → Result Cluster × State
  -- By namespace and by the label that names the cluster.
  pub list_machines : String → String → State → Result (List Machine) × State
  -- patch.NewHelper fails, or keeps the object as it is.
  pub new_machine_helper : NomadMachine → State → Option Error × State
  pub new_cluster_helper : NomadCluster → State → Option Error × State
  -- Helper.Patch: the object that the helper kept, the object now, and the owned conditions.
  pub patch_nomad_machine : NomadMachine → NomadMachine → List String → State → Option Error × State
  pub patch_nomad_cluster : NomadCluster → NomadCluster → List String → State → Option Error × State
  -- The workload cluster. A node is known by its provider id.
  pub get_remote_client : ObjectKey → State → Option Error × State
  pub list_nodes : ObjectKey → State → Option Error × State
  pub get_node : ObjectKey → String → State → Result String × State
  pub new_node_helper : ObjectKey → String → State → Option Error × State
  pub patch_node : ObjectKey → String → String → State → Option Error × State
  -- Nomad: a registration gives the id of its evaluation.
  -- A job is deregistered with the flag that purges it. A client may be refused by api.NewClient.
  pub new_nomad_client : NomadConfig → State → Option Error × State
  pub register_job : NomadConfig → Job → State → Result String × State
  pub deregister_job : NomadConfig → String → Bool → State → Result String × State
  pub read_evaluation : NomadConfig → String → State → Result Evaluation × State
  pub read_deployment : NomadConfig → String → State → Result Deployment × State
  -- net/http: the request's URL is refused, or the request is sent.
  pub check_url : String → State → Option Error × State
  pub send_http : Request → State → Result Response × State
  -- An environment variable that is not set reads as the empty text.
  pub read_env : String → State → String × State
  pub sleep : ℕ → State → Unit {0} × State

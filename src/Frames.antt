-- ===== src/Frames.antt =====
-- The computations that write neither the reconcilers' objects nor the polling: each keeps every
-- property that the world and the record of calls have no part in.
use cluster_api_provider_nom.Base.{ℕ, zero, suc, String}
use cluster_api_provider_nom.World.Error.{Result}
use cluster_api_provider_nom.World.Kit.{Kit}
use cluster_api_provider_nom.World.Wire.{Method, Body, NomadConfig, Request}
use cluster_api_provider_nom.World.Remote.{World}
use cluster_api_provider_nom.World.Monad.{Sys, M}
use cluster_api_provider_nom.World.Keeps.{Keeps, IsStable, stable_rules}
use cluster_api_provider_nom.Api.Meta.{Cluster, ObjectKey}
use cluster_api_provider_nom.Consul.Client.{Client, Target, send_request, send}
use cluster_api_provider_nom.Consul.Service as Consul
use cluster_api_provider_nom.Scope.Clients.{new_consul_client, new_nomad_client}
use cluster_api_provider_nom.Scope.ClusterScope.{is_api_server_online}
use cluster_api_provider_nom.Scope.MachineScope.{
  MachineScope, get_raw_bootstrap_data, put_provider_id, set_node_provider_id,
}
use cluster_api_provider_nom.Machine.Service.{
  Service, new_service, release_machine, poll_evaluation, get_deployment_id, fetch_machine,
  follow_registration, deploy_machine,
}
use cluster_api_provider_nom.Dns
use cluster_api_provider_nom.Dns.{DnsService}
use cluster_api_provider_nom.Controllers.MachineNormal.{resolve_user_data, deploy, finish_node}

module _ (K : Kit) (W : World) {P : Sys W.State → Type 0} (st : IsStable P) where
  send_request-Keeps : (r : Request) (v : Target) → Keeps P (send_request W r v)
  unfolding send_request
  send_request-Keeps r v = search stable_rules

  send-Keeps :
      (c : Client) (m : Method) (path : String) (b : Body) (v : Target)
      → Keeps P (send W c m path b v)
  unfolding send
  send-Keeps c m path b v = search (stable_rules, send_request-Keeps)

  pub dns_register-Keeps : (s : DnsService) → Keeps P (Dns.register_service W s)
  unfolding Dns.register_service Consul.register_service
  dns_register-Keeps s = search (stable_rules, send-Keeps)

  pub dns_deregister-Keeps : (s : DnsService) → Keeps P (Dns.deregister_service W s)
  unfolding Dns.deregister_service Consul.deregister_service
  dns_deregister-Keeps s = search (stable_rules, send-Keeps)

  pub new_consul_client-Keeps : Keeps P (new_consul_client W)
  unfolding new_consul_client
  new_consul_client-Keeps = search stable_rules

  pub new_dns_service-Keeps : (s : MachineScope) → Keeps P (Dns.new_service W s)
  unfolding Dns.new_service
  new_dns_service-Keeps s = search (stable_rules, new_consul_client-Keeps)

  new_nomad_client-Keeps : Keeps P (new_nomad_client W)
  unfolding new_nomad_client
  new_nomad_client-Keeps = search stable_rules depth 8

  pub new_service-Keeps : (s : MachineScope) → Keeps P (new_service W s)
  unfolding new_service
  new_service-Keeps s = search (stable_rules, new_nomad_client-Keeps)

  pub release_machine-Keeps : (s : Service) (id : String) → Keeps P (release_machine W s id)
  unfolding release_machine
  release_machine-Keeps s id = search stable_rules

  poll_evaluation-Keeps :
      (c : NomadConfig) (id : String) (again : M W.State (Result String))
      → Keeps P again
      → Keeps P (poll_evaluation W c id again)
  unfolding poll_evaluation
  poll_evaluation-Keeps c id again k = search stable_rules depth 8

  get_deployment_id-Keeps :
      (fuel : ℕ) (c : NomadConfig) (id : String) → Keeps P (get_deployment_id W fuel c id)
  unfolding get_deployment_id
  get_deployment_id-Keeps zero c id = search stable_rules
  get_deployment_id-Keeps (suc fuel) c id =
      poll_evaluation-Keeps c id _ (get_deployment_id-Keeps fuel c id)

  fetch_machine-Keeps :
      (s : MachineScope) (c : NomadConfig) (id : String) → Keeps P (fetch_machine W s c id)
  unfolding fetch_machine
  fetch_machine-Keeps s c id = search stable_rules

  follow_registration-Keeps :
      (fuel : ℕ) (s : MachineScope) (c : NomadConfig) (answer : Result String)
      → Keeps P (follow_registration W fuel s c answer)
  unfolding follow_registration
  follow_registration-Keeps fuel s c answer =
      search (stable_rules, get_deployment_id-Keeps, fetch_machine-Keeps) depth 10

  deploy_machine-Keeps :
      (fuel : ℕ) (s : Service) (text : String) → Keeps P (deploy_machine W fuel s text)
  unfolding deploy_machine
  deploy_machine-Keeps fuel s text = search (stable_rules, follow_registration-Keeps) depth 10

  get_raw_bootstrap_data-Keeps : (s : MachineScope) → Keeps P (get_raw_bootstrap_data W s)
  unfolding get_raw_bootstrap_data
  get_raw_bootstrap_data-Keeps s = search stable_rules depth 8

  resolve_user_data-Keeps : (s : MachineScope) → Keeps P (resolve_user_data K W s)
  unfolding resolve_user_data
  resolve_user_data-Keeps s = search (stable_rules, get_raw_bootstrap_data-Keeps)

  pub deploy-Keeps : (fuel : ℕ) (s : MachineScope) (svc : Service) → Keeps P (deploy K W fuel s svc)
  unfolding deploy
  deploy-Keeps fuel s svc =
      search (stable_rules, resolve_user_data-Keeps, deploy_machine-Keeps) depth 8

  pub is_api_server_online-Keeps : (c : Cluster) → Keeps P (is_api_server_online K W c)
  unfolding is_api_server_online
  is_api_server_online-Keeps c = search stable_rules depth 10

  put_provider_id-Keeps :
      (key : ObjectKey) (node current id : String) → Keeps P (put_provider_id W key node current id)
  unfolding put_provider_id
  put_provider_id-Keeps key node current id = search stable_rules

  set_node_provider_id-Keeps : (s : MachineScope) → Keeps P (set_node_provider_id W s)
  unfolding set_node_provider_id
  set_node_provider_id-Keeps s = search (stable_rules, put_provider_id-Keeps) depth 10

  pub finish_node-Keeps : (s : MachineScope) → Keeps P (finish_node K W s)
  unfolding finish_node
  finish_node-Keeps s =
      search (stable_rules, is_api_server_online-Keeps, set_node_provider_id-Keeps) depth 10

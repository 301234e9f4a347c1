-- ===== src/Api/Conditions.antt =====
-- Names of conditions and of their reasons: api/v1alpha3/condition_consts.go, and the constants of
-- Cluster API that the provider sets.
use cluster_api_provider_nom.Base.{String}

abbrev pub machine_deployed_condition : String
machine_deployed_condition = "MachineDeployed"

abbrev pub waiting_for_cluster_infrastructure_reason : String
waiting_for_cluster_infrastructure_reason = "WaitingForClusterInfrastructure"

abbrev pub waiting_for_bootstrap_data_reason : String
waiting_for_bootstrap_data_reason = "WaitingForBootstrapData"

abbrev pub machine_deploying_reason : String
machine_deploying_reason = "MachineDeploying"

abbrev pub machine_terminated_reason : String
machine_terminated_reason = "MachineTerminatedReason"

abbrev pub machine_powered_off_reason : String
machine_powered_off_reason = "MachinePoweredOff"

abbrev pub machine_not_found_reason : String
machine_not_found_reason = "MachineNotFound"

abbrev pub machine_deploy_failed_reason : String
machine_deploy_failed_reason = "MachineDeployFailed"

abbrev pub machine_deploy_started_reason : String
machine_deploy_started_reason = "MachineDeployStartedReason"

abbrev pub dns_attached_condition : String
dns_attached_condition = "DNSAttached"

abbrev pub dns_detach_pending : String
dns_detach_pending = "DNSDetachPending"

abbrev pub dns_attach_pending : String
dns_attach_pending = "DNSAttachPending"

abbrev pub dns_ready_condition : String
dns_ready_condition = "LoadBalancerReady"

abbrev pub dns_failed_reason : String
dns_failed_reason = "LoadBalancerFailed"

abbrev pub wait_for_dns_name_reason : String
wait_for_dns_name_reason = "WaitForDNSName"

abbrev pub api_server_available_condition : String
api_server_available_condition = "APIServerAvailable"

abbrev pub api_server_not_ready_reason : String
api_server_not_ready_reason = "APIServerNotReady"

-- clusterv1.ReadyCondition and clusterv1.DeletedReason.
abbrev pub ready_condition : String
ready_condition = "Ready"

abbrev pub deleted_reason : String
deleted_reason = "Deleted"

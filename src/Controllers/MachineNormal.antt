-- ===== src/Controllers/MachineNormal.antt =====
-- `reconcileNormal`, `deployMachine` and `resolveUserData` of
-- controllers/nomadmachine_controller.go.
pub mod Status
pub mod Attached
pub mod Finalizer
pub mod Panics
pub mod Deploys
use cluster_api_provider_nom.Base.{ℕ, String, ◌<>◌, not, Option, none, some, if◌then◌else◌}
use cluster_api_provider_nom.Base.Text.{◌==◌}
use cluster_api_provider_nom.World.Error.{error_text, wrap, Result, ok, err}
use cluster_api_provider_nom.World.Kit.{Kit}
use cluster_api_provider_nom.World.Remote.{World}
use cluster_api_provider_nom.World.Monad.{
  M, nil_dereference, pure, panic, on_ok, on_no_error, on_some, branch, get_machine, modify_machine,
  ◌>>=◌, ◌>>◌,
}
use cluster_api_provider_nom.Api.Meta.{error_severity, info_severity}
use cluster_api_provider_nom.Api.Conditions.{
  machine_deployed_condition, waiting_for_cluster_infrastructure_reason,
  waiting_for_bootstrap_data_reason, machine_deploying_reason, machine_deploy_failed_reason,
}
use cluster_api_provider_nom.Api.NomadMachine.{
  NomadMachine, Deployed, MachineStatus, machine_finalizer, machine_state_running,
  machine_state_successful,
}
use cluster_api_provider_nom.Scope.ClusterScope.{is_api_server_online}
use cluster_api_provider_nom.Scope.MachineScope.{
  MachineScope, get_raw_bootstrap_data, set_node_provider_id, mark_false, mark_true, mark_unknown,
  set_addresses, set_ready, set_not_ready, set_failure_message, set_failure_reason, set_provider_id,
  set_deployment_status, set_deployment_status_description, machine_is_in_known_state,
  machine_is_operational,
}
use cluster_api_provider_nom.Machine.Service.{Service, new_service, deploy_machine}
use cluster_api_provider_nom.Controllers.Reply.{Reply, finished, failed, requeue}
use cluster_api_provider_nom.Controllers.DnsAttachment.{warn, reconcile_dns_attachment}

unfoldable pub add_machine_finalizer : Kit → NomadMachine → NomadMachine
add_machine_finalizer K m = record m {
  meta = record (m.meta) { finalizers = K.add_finalizer m.meta.finalizers machine_finalizer };
}

-- capierrors.UpdateMachineError.
abbrev pub update_machine_error : String
update_machine_error = "UpdateError"

-- What is known of the deployment, written into the object: the provider id and the status.
unfoldable pub adopt : Deployed → NomadMachine → NomadMachine
unfolding set_provider_id set_deployment_status set_deployment_status_description
adopt d m =
    set_deployment_status_description d.status_description
      (set_deployment_status d.status (set_provider_id d.job_id d.deployment_id m))

module _ (K : Kit) (W : World) where
  unfoldable pub resolve_user_data : MachineScope → M W.State (Result String)
  resolve_user_data s = do
    user_data ← get_raw_bootstrap_data W s
    on_ok user_data
        (λ e. do warn K W "FailedGetBootstrapData" (K.format (error_text e)); pure (err e))
        (λ text. pure (ok text))

  -- `deployMachine` of the reconciler. The service may give a nil machine and no error.
  unfoldable pub deploy : ℕ → MachineScope → Service → M W.State (Result (Option Deployed))
  deploy fuel s svc = do
    user_data ← resolve_user_data s
    on_ok user_data (λ e. pure (err (wrap e "failed to resolve userdata")))
        (λ text. do
          deployed ← deploy_machine W fuel svc text
          on_ok deployed (λ e. pure (err (wrap e "failed to deploy NomadMachine instance")))
              (λ m. pure (ok m)))

  -- The switch over the deployment's status.
  unfoldable pub dispatch_status : MachineStatus → M W.State (Unit {0})
  unfolding set_not_ready set_ready set_failure_reason set_failure_message
  dispatch_status status =
      branch (status == machine_state_running)
        (do
          modify_machine set_not_ready
          modify_machine
              (mark_false K machine_deployed_condition machine_deploying_reason info_severity ""))
        (branch (status == machine_state_successful)
          (do modify_machine set_ready; modify_machine (mark_true K machine_deployed_condition))
          (do
            modify_machine set_not_ready
            warn K W "MachineUnhandledState" "Nomad m state is undefined"
            modify_machine (set_failure_reason update_machine_error)
            modify_machine
                (set_failure_message ("Nomad m state " <> (K.quote status <> " is undefined")))
            modify_machine (mark_unknown K machine_deployed_condition)))

  -- The last part: the requests that wait for the workload cluster's API server.
  unfoldable pub finish_node : MachineScope → M W.State Reply
  finish_node s = do
    (online, _) ← is_api_server_online K W s.cluster_scope.cluster
    m ← get_machine
    branch (not online) (pure (requeue 300)) (
        branch (not (machine_is_operational K m)) (pure (requeue 300)) (do
          unset ← set_node_provider_id W s
          on_no_error unset
              (λ e. do
                warn K W "NodeProviderUpdateFailed" "Unable to set the node provider update"
                pure (requeue 30))
              (pure finished)))

  -- The tasks for every known state, and then the last part.
  unfoldable pub settle_machine : MachineScope → Deployed → M W.State Reply
  unfolding set_addresses
  settle_machine s d = do
    m ← get_machine
    branch (machine_is_in_known_state K m)
        (do
          modify_machine (set_addresses d.addresses)
          unattached ← reconcile_dns_attachment K W s
          on_no_error unattached (λ e. pure (failed e)) (finish_node s))
        (finish_node s)

  -- What is done with the machine that was deployed; nil is read through at once.
  unfoldable pub follow_deployment : MachineScope → Option Deployed → M W.State Reply
  unfolding adopt
  follow_deployment s deployed =
      on_some deployed (panic (nil_dereference "m"))
        (λ d. do modify_machine (adopt d); dispatch_status d.status; settle_machine s d)

  -- From the service on: the machine is deployed, and an error is shown in its conditions.
  unfoldable pub deploy_and_follow : ℕ → MachineScope → M W.State Reply
  deploy_and_follow fuel s = do
    svc ← new_service W s
    deployed ← deploy fuel s svc
    on_ok deployed
        (λ e. do
          modify_machine (
              mark_false K machine_deployed_condition machine_deploy_failed_reason error_severity
                (error_text e))
          pure (failed e))
        (follow_deployment s)

  unfoldable pub reconcile_normal : ℕ → MachineScope → M W.State Reply
  unfolding add_machine_finalizer
  reconcile_normal fuel s = do
    nm ← get_machine
    branch (not (K.contains_finalizer nm.meta.finalizers machine_finalizer))
        (do modify_machine (add_machine_finalizer K); pure finished)
        (branch (not s.cluster.infrastructure_ready)
          (do
            modify_machine (
                mark_false K machine_deployed_condition waiting_for_cluster_infrastructure_reason
                  info_severity "")
            pure finished)
          (on_some s.machine.data_secret_name
            (do
              modify_machine (
                  mark_false K machine_deployed_condition waiting_for_bootstrap_data_reason
                    info_severity "")
              pure finished)
            (λ _. deploy_and_follow fuel s)))

-- ===== src/Controllers/MachineDelete.antt =====
-- `reconcileDelete` of controllers/nomadmachine_controller.go.
pub mod Detach
pub mod Laws
use cluster_api_provider_nom.Base.{◌<>◌}
use cluster_api_provider_nom.World.Kit.{Kit}
use cluster_api_provider_nom.World.Wire.{normal, record_event}
use cluster_api_provider_nom.World.Remote.{World}
use cluster_api_provider_nom.World.Monad.{M, pure, call, on_no_error, modify_machine, ◌>>=◌, ◌>>◌}
use cluster_api_provider_nom.Api.Meta.{info_severity}
use cluster_api_provider_nom.Api.Conditions.{machine_deployed_condition, deleted_reason}
use cluster_api_provider_nom.Api.NomadMachine.{NomadMachine, machine_finalizer}
use cluster_api_provider_nom.Scope.MachineScope.{MachineScope, id, mark_false}
use cluster_api_provider_nom.Machine.Service.{new_service, release_machine}
use cluster_api_provider_nom.Controllers.Reply.{Reply, finished, failed}
use cluster_api_provider_nom.Controllers.DnsAttachment.{reconcile_dns_attachment}

unfoldable pub remove_machine_finalizer : Kit → NomadMachine → NomadMachine
remove_machine_finalizer K m = record m {
  meta = record (m.meta) { finalizers = K.remove_finalizer m.meta.finalizers machine_finalizer };
}

module _ (K : Kit) (W : World) where
  -- The end of `reconcileDelete`, once the job is released.
  unfoldable pub finish_delete : MachineScope → M W.State Reply
  unfolding id
  finish_delete s = do
    modify_machine (mark_false K machine_deployed_condition deleted_reason info_severity "")
    call (record_event normal "SuccessfulRelease" ("Released instance " <> K.quote (id s)))
        (λ w. (tt, w))
    modify_machine (remove_machine_finalizer K)
    pure finished

  unfoldable pub reconcile_delete : MachineScope → M W.State Reply
  reconcile_delete s = do
    svc ← new_service W s
    undetached ← reconcile_dns_attachment K W s
    on_no_error undetached (λ e. pure (failed e))
        (do
          unreleased ← release_machine W svc (id s)
          on_no_error unreleased (λ e. pure (failed e)) (finish_delete s))

-- ===== src/Controllers/DnsAttachment.antt =====
-- `reconcileDNSAttachment` of controllers/nomadmachine_controller.go.
pub mod Laws
pub mod Outcomes
pub mod Mirror
use cluster_api_provider_nom.Base.{
  String, ◌<>◌, Bool, true, false, not, ◌||◌, Option, none, some, if◌then◌else◌,
}
use cluster_api_provider_nom.World.Error.{Error, error_text, wrap}
use cluster_api_provider_nom.World.Kit.{Kit}
use cluster_api_provider_nom.World.Wire.{warning, record_event}
use cluster_api_provider_nom.World.Remote.{World}
use cluster_api_provider_nom.World.Monad.{
  M, pure, call, on_no_error, branch, get_machine, modify_machine, ◌>>=◌, ◌>>◌,
}
use cluster_api_provider_nom.Api.Meta.{warning_severity}
use cluster_api_provider_nom.Api.Conditions.{dns_attached_condition, dns_attach_pending}
use cluster_api_provider_nom.Api.NomadMachine.{NomadMachine}
use cluster_api_provider_nom.Scope.MachineScope.{
  MachineScope, id, is_control_plane, mark_false, mark_true, machine_is_running,
}
use cluster_api_provider_nom.Dns.{DnsService, new_service, register_service, deregister_service}

unfoldable pub set_dns_attached : Bool → NomadMachine → NomadMachine
set_dns_attached b m = record m { status = record (m.status) { dns_attached = b } }

module _ (K : Kit) (W : World) where
  -- The reconciler's `Recorder.Eventf` with a warning.
  abbrev pub warn : String → String → M W.State (Unit {0})
  warn reason message = call (record_event warning reason message) (λ w. (tt, w))

  -- The two branches of `reconcileDNSAttachment`, for a control plane.
  unfoldable pub detach : MachineScope → DnsService → M W.State (Option Error)
  unfolding set_dns_attached id
  detach s svc = do
    removed ← deregister_service W svc
    on_no_error removed
        (λ e. do
          warn "FailedDetachControlPlaneDNS" (
              "Failed to deregister control plane instance "
              <> (K.quote (id s)
                  <> (" from DNS: failed to determine registration status: " <> error_text e)))
          pure (some (wrap e ("machine " <> (K.quote (id s) <> " - error detaching service")))))
        (do
          modify_machine
              (mark_false K dns_attached_condition dns_attach_pending warning_severity "")
          modify_machine (set_dns_attached false)
          pure none)

  unfoldable pub attach : MachineScope → DnsService → M W.State (Option Error)
  unfolding set_dns_attached id
  attach s svc = do
    added ← register_service W svc
    on_no_error added
        (λ e. do
          warn "FailedAttachControlPlaneDNS" (
              "Failed to attach control plane instance "
              <> (K.quote (id s)
                  <> (" from DNS: failed to determine registration status: " <> error_text e)))
          pure (some (wrap e ("machine " <> (K.quote (id s) <> " - error registering service")))))
        (do
          modify_machine (set_dns_attached true)
          modify_machine (mark_true K dns_attached_condition)
          pure none)

  -- Whether the machine's service is to go.
  unfoldable pub leaves_dns : NomadMachine → Bool
  unfolding machine_is_running
  leaves_dns m = not (K.is_zero m.meta.deletion_timestamp) || not (machine_is_running K m)

  unfoldable pub reconcile_dns_attachment : MachineScope → M W.State (Option Error)
  reconcile_dns_attachment s =
      branch (is_control_plane K s)
        (do
          svc ← new_service W s
          m ← get_machine
          branch (leaves_dns m) (detach s svc) (attach s svc))
        (pure none)

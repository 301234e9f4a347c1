-- ===== src/Controllers/MachineReconcile.antt =====
-- `NomadMachineReconciler.Reconcile` of controllers/nomadmachine_controller.go.
pub mod Close
pub mod Paused
pub mod NoJob
use cluster_api_provider_nom.Base.{ℕ, Option, none, some, if◌then◌else◌}
use cluster_api_provider_nom.World.Error.{Error, is_not_found}
use cluster_api_provider_nom.World.Kit.{Kit}
use cluster_api_provider_nom.World.Wire.{get_object, get_owner}
use cluster_api_provider_nom.World.Remote.{World}
use cluster_api_provider_nom.World.Monad.{
  M, Outcome, returned, panicked, unfinished, nil_dereference, pure, panic, call, on_ok, on_some,
  branch, get_machine, modify_machine, modify_cluster, finally, ◌>>=◌, ◌>>◌,
}
use cluster_api_provider_nom.Api.Meta.{Machine, Cluster, ObjectKey, ObjectReference}
use cluster_api_provider_nom.Scope.ClusterScope.{new_cluster_scope}
use cluster_api_provider_nom.Scope.MachineScope.{
  MachineScope, new_machine_scope, close_machine_scope,
}
use cluster_api_provider_nom.Controllers.Reply.{Reply, finished, failed}
use cluster_api_provider_nom.Controllers.MachineNormal.{reconcile_normal}
use cluster_api_provider_nom.Controllers.MachineDelete.{reconcile_delete}

-- `if err := close(); err != nil && rerr == nil { rerr = err }`, on a run that may have panicked.
unfoldable pub keep_error : Outcome Reply → Option Error → Outcome Reply
keep_error (returned r) none = returned r
keep_error (returned r) (some e) =
    returned (elim r.error [ some _ ↦ r | none ↦ record r { error = some e } ])
keep_error (panicked p) _ = panicked p
keep_error unfinished _ = unfinished

module _ (K : Kit) (W : World) (fuel : ℕ) where
  -- Deleted machines and the others.
  unfoldable pub reconcile_machine : MachineScope → M W.State Reply
  reconcile_machine s = do
    m ← get_machine
    branch (K.is_zero m.meta.deletion_timestamp) (reconcile_normal K W fuel s)
        (reconcile_delete K W s)

  -- From the machine's scope on: the deferred `Close` runs however the rest ends.
  unfoldable pub run_machine_scope : MachineScope → M W.State Reply
  run_machine_scope s =
      finally (reconcile_machine s)
        λ outcome. do unclosed ← close_machine_scope K W s; pure (keep_error outcome unclosed)

  -- From the infrastructure cluster on.
  unfoldable pub reconcile_infra : Machine → Cluster → ObjectReference → M W.State Reply
  reconcile_infra machine cluster ref = do
    m ← get_machine
    let key : ObjectKey = record { key_namespace = m.meta.namespace; key_name = ref.ref_name }
    found ← call (get_object "NomadCluster" key) (W.get_nomad_cluster key)
    on_ok found (λ e. pure finished)
        (λ nomad_cluster. do
          modify_cluster (λ _. nomad_cluster)
          cluster_scope ← new_cluster_scope K W cluster "nomadmachine"
          on_ok cluster_scope (λ e. pure (failed e))
              (λ cs. do
                machine_scope ← new_machine_scope K W machine cluster cs
                on_ok machine_scope (λ e. pure (failed e)) run_machine_scope))

  -- From the two objects of Cluster API on.
  unfoldable pub reconcile_owned : Machine → Cluster → M W.State Reply
  reconcile_owned machine cluster = do
    m ← get_machine
    branch (K.is_paused cluster m.meta) (pure finished) (
        on_some cluster.infrastructure_ref (panic (nil_dereference "InfrastructureRef"))
          (reconcile_infra machine cluster))

  unfoldable pub reconcile : ObjectKey → M W.State Reply
  reconcile key = do
    found ← call (get_object "NomadMachine" key) (W.get_nomad_machine key)
    on_ok found (λ e. branch (is_not_found e) (pure finished) (pure (failed e)))
        (λ nomad_machine. do
          modify_machine (λ _. nomad_machine)
          owner ←
              call (get_owner "Machine" nomad_machine.meta) (W.get_owner_machine nomad_machine.meta)
          on_ok owner (λ e. pure (failed e))
              (λ o. on_some o (pure finished) (λ machine. do
                cluster ←
                    call (get_owner "Cluster" machine.meta)
                      (W.get_cluster_from_metadata machine.meta)
                on_ok cluster (λ e. pure finished) (reconcile_owned machine))))

-- ===== src/Controllers/ClusterReconcile/Delete.antt =====
-- A deleted NomadCluster.
use cluster_api_provider_nom.Base.{false, ◌∷◌, ◌≡◌, refl}
use cluster_api_provider_nom.World.Kit.{Kit, IsLawful}
use cluster_api_provider_nom.World.Wire.{patch_nomad_cluster}
use cluster_api_provider_nom.World.Remote.{World}
use cluster_api_provider_nom.World.Monad.{Sys, finally, ◌>>=◌}
use cluster_api_provider_nom.Api.NomadCluster.{NomadCluster, cluster_finalizer}
use cluster_api_provider_nom.Scope.ClusterScope.{ClusterScope, close_cluster_scope}
use cluster_api_provider_nom.Controllers.ClusterReconcile.{
  remove_cluster_finalizer, reconcile_delete, reconcile_cluster, run_cluster_scope,
}

-- The run on the scope of a deleted cluster makes one call, and it is the patch of an object that
-- the provider's finalizer no longer holds. No machine is asked for.
pub run_cluster_scope_deleted :
    (K : Kit) (L : IsLawful K) (W : World) (s : ClusterScope) (sys : Sys W.State)
    → K.is_zero sys.nomad_cluster.meta.deletion_timestamp ≡ false
    → (c : NomadCluster) × ((run_cluster_scope K W s sys).1.calls
        ≡ patch_nomad_cluster c ∷ sys.calls)
      × (K.contains_finalizer c.meta.finalizers cluster_finalizer ≡ false)
unfolding run_cluster_scope reconcile_cluster reconcile_delete remove_cluster_finalizer
    close_cluster_scope finally ◌>>=◌
run_cluster_scope_deleted K L W s sys deleted =
    rw deleted (_, refl, L.contains-remove sys.nomad_cluster.meta.finalizers cluster_finalizer)

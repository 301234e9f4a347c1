-- ===== src/Controllers/ClusterReconcile.antt =====
-- `Reconcile`, `reconcileDelete` and `reconcileNormal` of controllers/nomadcluster_controller.go.
-- `ReconcileNomadClusterWhenAPIServerIsOnline` starts a goroutine: see `Poller`.
pub mod Domains
pub mod Endpoint
pub mod Delete
pub mod Finalizer
pub mod SecondRun
use cluster_api_provider_nom.Base.{
  ℕ, String, ◌<>◌, true, not, none, some, List, [], ◌∷◌, insert, if◌then◌else◌,
}
use cluster_api_provider_nom.Base.Text.{◌==◌}
use cluster_api_provider_nom.World.Error.{fresh, error_text, is_not_found}
use cluster_api_provider_nom.World.Kit.{Kit}
use cluster_api_provider_nom.World.Wire.{get_object, get_owner}
use cluster_api_provider_nom.World.Remote.{World}
use cluster_api_provider_nom.World.Monad.{
  M, pure, call, on_ok, on_some, branch, get_cluster_object, modify_cluster, modify_polls, finally,
  ◌>>=◌, ◌>>◌,
}
use cluster_api_provider_nom.Poller.{start}
use cluster_api_provider_nom.Api.Meta.{ObjectKey, info_severity, warning_severity}
use cluster_api_provider_nom.Api.Conditions.{
  dns_ready_condition, wait_for_dns_name_reason, api_server_available_condition,
  api_server_not_ready_reason,
}
use cluster_api_provider_nom.Api.NomadCluster.{NomadCluster, FailureDomains, cluster_finalizer}
use cluster_api_provider_nom.Scope.ClusterScope.{
  ClusterScope, new_cluster_scope, close_cluster_scope, is_api_server_online, get_dns_name,
  set_dns_name, api_server_port, mark_false, mark_true,
}
use cluster_api_provider_nom.Controllers.Reply.{Reply, finished, failed, requeue}
use cluster_api_provider_nom.Controllers.MachineReconcile.{keep_error}

-- The loop over the spec's failure domains, into the map made so far.
unfoldable pub collect_failure_domains : List String → FailureDomains → FailureDomains
collect_failure_domains [] domains = domains
collect_failure_domains (az ∷ azs) domains =
    collect_failure_domains azs (insert az (record { control_plane = true }) domains)

unfoldable pub set_failure_domains : NomadCluster → NomadCluster
unfolding collect_failure_domains
set_failure_domains c = record c {
  status = record (c.status) {
    failure_domains = collect_failure_domains c.spec.failure_domains [];
  };
}

unfoldable pub add_cluster_finalizer : Kit → NomadCluster → NomadCluster
add_cluster_finalizer K c = record c {
  meta = record (c.meta) { finalizers = K.add_finalizer c.meta.finalizers cluster_finalizer };
}

unfoldable pub remove_cluster_finalizer : Kit → NomadCluster → NomadCluster
remove_cluster_finalizer K c = record c {
  meta = record (c.meta) { finalizers = K.remove_finalizer c.meta.finalizers cluster_finalizer };
}

-- The endpoint and the flag of a cluster whose name is known.
unfoldable pub set_endpoint : ℕ → NomadCluster → NomadCluster
set_endpoint port c = record c {
  spec = record (c.spec) {
    control_plane_endpoint = record { host = c.status.dns_name; port = port };
  };
  status = record (c.status) { ready = true };
}

module _ (K : Kit) (W : World) where
  unfoldable pub reconcile_delete : ClusterScope → M W.State Reply
  unfolding remove_cluster_finalizer
  reconcile_delete s = do modify_cluster (remove_cluster_finalizer K); pure finished

  -- From the endpoint on.
  unfoldable pub check_api_server : ClusterScope → M W.State Reply
  check_api_server s = do
    modify_polls (start K s.cluster)
    (online, _) ← is_api_server_online K W s.cluster
    branch (not online)
        (do
          modify_cluster (
              mark_false K api_server_available_condition api_server_not_ready_reason
                warning_severity)
          pure finished)
        (do modify_cluster (mark_true K api_server_available_condition); pure finished)

  unfoldable pub reconcile_normal : ClusterScope → M W.State Reply
  unfolding add_cluster_finalizer set_dns_name set_endpoint
  reconcile_normal s = do
    c ← get_cluster_object
    branch (not (K.contains_finalizer c.meta.finalizers cluster_finalizer))
        (do modify_cluster (add_cluster_finalizer K); pure finished)
        (do
          modify_cluster (set_dns_name (get_dns_name s))
          named ← get_cluster_object
          branch (named.status.dns_name == "")
              (do
                modify_cluster
                    (mark_false K dns_ready_condition wait_for_dns_name_reason info_severity)
                pure (requeue 15))
              (do
                modify_cluster (set_endpoint (api_server_port s.cluster))
                modify_cluster (mark_true K dns_ready_condition)
                check_api_server s))

  unfoldable pub reconcile_cluster : ClusterScope → M W.State Reply
  unfolding set_failure_domains
  reconcile_cluster s = do
    modify_cluster set_failure_domains
    c ← get_cluster_object
    branch (K.is_zero c.meta.deletion_timestamp) (reconcile_normal s) (reconcile_delete s)

  -- From the cluster's scope on, with its deferred `Close`.
  unfoldable pub run_cluster_scope : ClusterScope → M W.State Reply
  run_cluster_scope s =
      finally (reconcile_cluster s)
        λ outcome. do unclosed ← close_cluster_scope K W s; pure (keep_error outcome unclosed)

  unfoldable pub reconcile : ObjectKey → M W.State Reply
  reconcile key = do
    found ← call (get_object "NomadCluster" key) (W.get_nomad_cluster key)
    on_ok found (λ e. branch (is_not_found e) (pure finished) (pure (failed e)))
        (λ nomad_cluster. do
          modify_cluster (λ _. nomad_cluster)
          owner ←
              call (get_owner "Cluster" nomad_cluster.meta) (W.get_owner_cluster nomad_cluster.meta)
          on_ok owner (λ e. pure (failed e))
              (λ o. on_some o (pure finished) (λ cluster. do
                scope ← new_cluster_scope K W cluster "nomadcluster"
                on_ok scope
                    (λ e. pure (failed (fresh ("failed to create scope: " <> K.format_verbose e))))
                    run_cluster_scope)))

-- ===== src/Footprint/Cluster.antt =====
-- The calls of the cluster controller.
use cluster_api_provider_nom.Base.{String, ◌≡◌, ◌⊎◌, inl, inr, refl}
use cluster_api_provider_nom.World.Kit.{Kit}
use cluster_api_provider_nom.World.Wire.{
  Call, get_object, get_owner, list_machines, patch_nomad_machine, patch_nomad_cluster,
  get_remote_client, list_nodes, get_node, patch_node, register_job, deregister_job,
  read_evaluation, read_deployment, send_http, read_env, sleep, record_event,
}
use cluster_api_provider_nom.World.Remote.{World}
use cluster_api_provider_nom.World.Monad.{Sys, call, modify_polls}
use cluster_api_provider_nom.World.Keeps.{Keeps, Keeps-modify}
use cluster_api_provider_nom.Api.Meta.{Cluster, ObjectKey}
use cluster_api_provider_nom.Api.NomadCluster.{NomadCluster}
use cluster_api_provider_nom.Poller.{start}
use cluster_api_provider_nom.Scope.ClusterScope.{
  ClusterScope, new_cluster_scope, close_cluster_scope, is_api_server_online,
}
use cluster_api_provider_nom.Controllers.ClusterReconcile.{
  reconcile_delete, check_api_server, reconcile_normal, reconcile_cluster, run_cluster_scope,
  reconcile,
}
use cluster_api_provider_nom.Footprint.{Frame, frame_rules, frame-call, frame-narrow}

-- Reads of objects and of the workload cluster's nodes.
abbrev pub ReadCall : Call → Type 0
ReadCall (get_object _ _) = Unit
ReadCall (get_owner _ _) = Unit
ReadCall (list_machines _ _) = ⊥
ReadCall (patch_nomad_machine _) = ⊥
ReadCall (patch_nomad_cluster _) = ⊥
ReadCall (get_remote_client _) = Unit
ReadCall list_nodes = Unit
ReadCall (get_node _) = ⊥
ReadCall (patch_node _ _) = ⊥
ReadCall (register_job _ _) = ⊥
ReadCall (deregister_job _ _ _) = ⊥
ReadCall (read_evaluation _ _) = ⊥
ReadCall (read_deployment _ _) = ⊥
ReadCall (send_http _) = ⊥
ReadCall (read_env _) = ⊥
ReadCall (sleep _) = ⊥
ReadCall (record_event _ _ _) = ⊥

-- The reads, and the patch of the NomadCluster.
abbrev pub ClusterCall : Call → Type 0
ClusterCall c = ReadCall c ⊎ ((k : NomadCluster) × (c ≡ patch_nomad_cluster k))

module _ (K : Kit) (W : World) {P : Sys W.State → Type 0} (f : Frame ReadCall P)
    (started : (c : Cluster) (s : Sys W.State)
      → P s
      → P (record s { polls = start K c s.polls })) where
  pub online-Keeps : (c : Cluster) → Keeps P (is_api_server_online K W c)
  unfolding is_api_server_online
  online-Keeps c = search (frame_rules, f, tt) depth 10

  start-Keeps : (c : Cluster) → Keeps P (modify_polls (start K c))
  start-Keeps c = Keeps-modify _ (started c)

  check-Keeps : (s : ClusterScope) → Keeps P (check_api_server K W s)
  unfolding check_api_server
  check-Keeps s = search (frame_rules, f, start-Keeps, online-Keeps) depth 10

  normal-Keeps : (s : ClusterScope) → Keeps P (reconcile_normal K W s)
  unfolding reconcile_normal
  normal-Keeps s = search (frame_rules, f, check-Keeps) depth 10

  delete-Keeps : (s : ClusterScope) → Keeps P (reconcile_delete K W s)
  unfolding reconcile_delete
  delete-Keeps s = search (frame_rules, f)

  pub reconcile_cluster-Keeps : (s : ClusterScope) → Keeps P (reconcile_cluster K W s)
  unfolding reconcile_cluster
  reconcile_cluster-Keeps s = search (frame_rules, f, normal-Keeps, delete-Keeps) depth 8

  pub new_cluster_scope-Keeps :
      (c : Cluster) (name : String) → Keeps P (new_cluster_scope K W c name)
  unfolding new_cluster_scope
  new_cluster_scope-Keeps c name = search (frame_rules, f)

module _ (K : Kit) (W : World) {P : Sys W.State → Type 0} (f : Frame ClusterCall P)
    (started : (c : Cluster) (s : Sys W.State)
      → P s
      → P (record s { polls = start K c s.polls })) where
  abbrev reads : Frame ReadCall P
  reads = frame-narrow (λ c own. inl own) f

  patch-Keeps :
      {A : Type 0} (k : NomadCluster) (op : W.State → A × W.State)
      → Keeps P (call (patch_nomad_cluster k) op)
  patch-Keeps k op = frame-call f (patch_nomad_cluster k) op (inr (k, refl))

  body-Keeps : (s : ClusterScope) → Keeps P (reconcile_cluster K W s)
  body-Keeps s = reconcile_cluster-Keeps K W reads started s

  scope-Keeps : (c : Cluster) (name : String) → Keeps P (new_cluster_scope K W c name)
  scope-Keeps c name = new_cluster_scope-Keeps K W reads started c name

  close-Keeps : (s : ClusterScope) → Keeps P (close_cluster_scope K W s)
  unfolding close_cluster_scope
  close-Keeps s = search (frame_rules, f, patch-Keeps)

  run_cluster_scope-Keeps : (s : ClusterScope) → Keeps P (run_cluster_scope K W s)
  unfolding run_cluster_scope
  run_cluster_scope-Keeps s = search (frame_rules, body-Keeps, close-Keeps)

  pub reconcile-Keeps : (key : ObjectKey) → Keeps P (reconcile K W key)
  unfolding reconcile
  reconcile-Keeps key =
      search (frame_rules, reads, tt, scope-Keeps, run_cluster_scope-Keeps) depth 12

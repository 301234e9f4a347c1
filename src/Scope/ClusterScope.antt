-- ===== src/Scope/ClusterScope.antt =====
-- pkg/nomad/scope/cluster.go, without the polling of the API server (see Poller). The scope's
-- NomadCluster is the object that `Sys` holds.
use cluster_api_provider_nom.Base.{
  ℕ, String, ◌<>◌, Bool, true, false, Option, none, some, List, [], ◌∷◌,
}
use cluster_api_provider_nom.World.Error.{Error, fresh, wrap, Result, ok, err}
use cluster_api_provider_nom.World.Kit.{Kit}
use cluster_api_provider_nom.World.Wire.{
  get_object, patch_nomad_cluster, get_remote_client, list_nodes,
}
use cluster_api_provider_nom.World.Remote.{World}
use cluster_api_provider_nom.World.Monad.{
  M, pure, call, silent, on_ok, on_no_error, branch, get_cluster_object, modify_cluster, ◌>>=◌,
  ◌>>◌,
}
use cluster_api_provider_nom.Api.Meta.{Cluster, Severity, object_key}
use cluster_api_provider_nom.Api.Conditions.{
  ready_condition, dns_ready_condition, api_server_available_condition,
}
use cluster_api_provider_nom.Api.NomadCluster.{NomadCluster, get_conditions, set_conditions}

abbrev pub consul_domain : String
consul_domain = "service.consul"

pub record ClusterScope : Type 0 where
  pub cluster : Cluster
  -- The object as it was when the scope was made.
  pub patch_helper : NomadCluster
  pub controller_name : String

abbrev pub default_api_server_port : ℕ
default_api_server_port = 6443

unfoldable pub api_server_port : Cluster → ℕ
api_server_port c = elim c.network [
  | some (some port) ↦ port
  | some none ↦ default_api_server_port
  | none ↦ default_api_server_port
]

-- `ClusterScope.GetDNSName`.
unfoldable pub get_dns_name : ClusterScope → String
get_dns_name s = s.cluster.meta.name <> ("." <> consul_domain)

unfoldable pub set_dns_name : String → NomadCluster → NomadCluster
set_dns_name name c = record c { status = record (c.status) { dns_name = name } }

abbrev pub mark_false : Kit → String → String → Severity → NomadCluster → NomadCluster
mark_false K condition reason severity c =
    set_conditions c (K.mark_false condition reason severity "" (get_conditions c))

abbrev pub mark_true : Kit → String → NomadCluster → NomadCluster
mark_true K condition c = set_conditions c (K.mark_true condition (get_conditions c))

-- The summary of `PatchObject`.
unfoldable pub summarize : Kit → NomadCluster → NomadCluster
summarize K c = set_conditions c (
    K.set_summary (dns_ready_condition ∷ api_server_available_condition ∷ [])
      (K.is_zero c.meta.deletion_timestamp) (get_conditions c))

abbrev pub owned_conditions : List String
owned_conditions = ready_condition ∷ dns_ready_condition ∷ api_server_available_condition ∷ []

module _ (K : Kit) (W : World) where
  unfoldable pub new_cluster_scope : Cluster → String → M W.State (Result ClusterScope)
  new_cluster_scope cluster controller_name = do
    c ← get_cluster_object
    failed ← silent (W.new_cluster_helper c)
    on_no_error failed (λ e. pure (err (wrap e "failed to init patch helper")))
        (pure
          (ok (record { cluster = cluster; patch_helper = c; controller_name = controller_name })))

  -- `PatchObject`, which is all of `Close`.
  unfoldable pub close_cluster_scope : ClusterScope → M W.State (Option Error)
  unfolding summarize
  close_cluster_scope s = do
    modify_cluster (summarize K)
    c ← get_cluster_object
    call (patch_nomad_cluster c) (W.patch_nomad_cluster s.patch_helper c owned_conditions)

  -- `IsAPIServerOnline`: the answer, and the error.
  unfoldable pub is_api_server_online : Cluster → M W.State (Bool × Option Error)
  is_api_server_online cluster =
      let key = object_key cluster.meta in
      do
        found ← call (get_object "Cluster" key) (W.get_cluster key)
        on_ok found (λ e. pure (false, some e))
            (λ current.
              branch (K.is_zero current.meta.deletion_timestamp)
                (do
                  offline ← call (get_remote_client key) (W.get_remote_client key)
                  on_no_error offline (λ e. pure (false, none))
                      (do
                        failed ← call list_nodes (W.list_nodes key)
                        on_no_error failed (λ e. pure (false, none)) (pure (true, none))))
                (pure (false, some (fresh "Cluster is deleting; abort IsAPIServerOnline"))))

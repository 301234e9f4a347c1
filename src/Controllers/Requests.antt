-- ===== src/Controllers/Requests.antt =====
-- The map functions of the watches: `NomadClusterToNomadMachines` of
-- controllers/nomadmachine_controller.go, and `IsControlPlaneMachine` and
-- `controlPlaneMachineToCluster` of controllers/nomadcluster_controller.go.
pub mod Laws
pub mod Panics
use cluster_api_provider_nom.Base.{
  String, Bool, true, false, none, some, List, [], ◌∷◌, lookup, if◌then◌else◌,
}
use cluster_api_provider_nom.Base.Text.{◌==◌}
use cluster_api_provider_nom.World.Wire.{get_object, get_owner, list_machines}
use cluster_api_provider_nom.World.Remote.{World}
use cluster_api_provider_nom.World.Monad.{
  M, nil_dereference, unexpected_type, pure, panic, call, on_ok, on_some, branch, ◌>>=◌,
}
use cluster_api_provider_nom.Api.Meta.{Machine, ObjectKey}
use cluster_api_provider_nom.Api.NomadMachine.{NomadMachine}
use cluster_api_provider_nom.Api.NomadCluster.{NomadCluster}

-- clusterv1.MachineControlPlaneLabelName.
abbrev pub machine_control_plane_label_name : String
machine_control_plane_label_name = "cluster.x-k8s.io/control-plane"

-- The object of a watch, as the type assertions of the two functions see it.
pub data Watched : Type 0 where
  nomad_machine : NomadMachine → Watched
  nomad_cluster : NomadCluster → Watched
  other : Watched

unfoldable pub is_control_plane_machine : NomadMachine → Bool
is_control_plane_machine m = elim (lookup machine_control_plane_label_name m.meta.labels) [
  | some _ ↦ true
  | none ↦ false
]

-- The loop over the machines of a cluster.
unfoldable pub machine_requests : List Machine → List ObjectKey
machine_requests [] = []
machine_requests (m ∷ ms) =
    let rest = machine_requests ms in
    if m.infrastructure_ref.ref_name == ""
    then rest
    else record {
      key_namespace = m.infrastructure_ref.ref_namespace;
      key_name = m.infrastructure_ref.ref_name;
    }
      ∷ rest

module _ (W : World) where
  machines_of : NomadCluster → M W.State (List ObjectKey)
  machines_of c = do
    owner ← call (get_owner "Cluster" c.meta) (W.get_owner_cluster c.meta)
    on_ok owner (λ e. pure [])
        (λ o. on_some o (pure []) (λ cluster. do
          listed ←
              call (list_machines c.meta.namespace cluster.meta.name)
                (W.list_machines c.meta.namespace cluster.meta.name)
          on_ok listed (λ e. pure []) (λ ms. pure (machine_requests ms))))

  unfoldable pub nomad_cluster_to_nomad_machines : Watched → M W.State (List ObjectKey)
  unfolding machines_of
  nomad_cluster_to_nomad_machines (nomad_cluster c) = machines_of c
  nomad_cluster_to_nomad_machines (nomad_machine _) = panic unexpected_type
  nomad_cluster_to_nomad_machines other = panic unexpected_type

  cluster_of : NomadMachine → M W.State (List ObjectKey)
  cluster_of m =
      branch (is_control_plane_machine m)
        (do
          found ← call (get_owner "Cluster" m.meta) (W.get_cluster_from_metadata m.meta)
          on_ok found (λ e. pure [])
              (λ cluster.
                on_some cluster.infrastructure_ref (panic (nil_dereference "InfrastructureRef"))
                  (λ ref. do
                    let key : ObjectKey = record {
                      key_namespace = m.meta.namespace;
                      key_name = ref.ref_name;
                    }
                    read ← call (get_object "NomadCluster" key) (W.get_nomad_cluster key)
                    on_ok read (λ e. pure []) (λ _. pure (key ∷ [])))))
        (pure [])

  unfoldable pub control_plane_machine_to_cluster : Watched → M W.State (List ObjectKey)
  unfolding cluster_of
  control_plane_machine_to_cluster (nomad_machine m) = cluster_of m
  control_plane_machine_to_cluster (nomad_cluster _) = pure []
  control_plane_machine_to_cluster other = pure []

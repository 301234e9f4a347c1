-- ===== src/Controllers/Requests/Panics.antt =====
-- When `controlPlaneMachineToCluster` panics.
use cluster_api_provider_nom.Base.{
  true, none, ◌≡◌, ◌↔◌, ◌⊎◌, refl, inl, inr, Option-cases, Bool-cases, arith,
}
use cluster_api_provider_nom.World.Error.{Error, Result, ok, err}
use cluster_api_provider_nom.World.Remote.{World}
use cluster_api_provider_nom.World.Monad.{Panic, nil_dereference, panicked, Sys, ◌>>=◌}
use cluster_api_provider_nom.Api.Meta.{Cluster}
use cluster_api_provider_nom.Api.NomadMachine.{NomadMachine}
use cluster_api_provider_nom.Controllers.Requests.{
  nomad_machine, is_control_plane_machine, control_plane_machine_to_cluster,
}

-- The cluster that was found has no reference to its infrastructure.
abbrev pub IsUnreferenced : Result Cluster → Type 0
IsUnreferenced found =
    (cluster : Cluster) × (found ≡ ok cluster) × (cluster.infrastructure_ref ≡ none)

Result-cases :
    (r : Result Cluster) → ((e : Error) × (r ≡ err e)) ⊎ ((cluster : Cluster) × (r ≡ ok cluster))
Result-cases (ok cluster) = inr (cluster, refl)
Result-cases (err e) = inl (e, refl)

-- On a NomadMachine, controlPlaneMachineToCluster panics exactly if the machine belongs to a
-- control plane, its Cluster is found, and the Cluster has no reference to its infrastructure.
pub control_plane_machine_to_cluster-panicked_iff :
    (W : World) (m : NomadMachine) (sys : Sys W.State)
    → ((p : Panic) × ((control_plane_machine_to_cluster W (nomad_machine m) sys).0 ≡ panicked p))
      ↔ ((is_control_plane_machine m ≡ true)
          × IsUnreferenced (W.get_cluster_from_metadata m.meta sys.world).0)
unfolding control_plane_machine_to_cluster ◌>>=◌
control_plane_machine_to_cluster-panicked_iff W m sys =
    let found = (W.get_cluster_from_metadata m.meta sys.world).0 in
    (
      λ (p, e). elim (Bool-cases (is_control_plane_machine m)) [
        | inl b ↦ (
          b,
          elim (Result-cases found) [
            | inl (f, none_found) ↦ absurd (ground arith)
            | inr (cluster, is_found) ↦ (
              cluster,
              is_found,
              elim (Option-cases cluster.infrastructure_ref) [
                | inl r ↦ r
                | inr (ref, r) ↦ absurd (ground arith)
              ],
            )
          ],
        )
        | inr b ↦ absurd (ground arith)
      ],
      λ (b, unreferenced). (nil_dereference "InfrastructureRef", ground arith),
    )

-- ===== src/Controllers/MachineReconcile/Paused.antt =====
-- Reconciling a paused machine.
use cluster_api_provider_nom.Base.{ℕ, true, some, ◌∷◌, ◌≡◌, refl}
use cluster_api_provider_nom.World.Error.{ok}
use cluster_api_provider_nom.World.Kit.{Kit}
use cluster_api_provider_nom.World.Wire.{get_object, get_owner}
use cluster_api_provider_nom.World.Remote.{World}
use cluster_api_provider_nom.World.Monad.{Sys, returned, ◌>>=◌}
use cluster_api_provider_nom.Api.Meta.{Machine, Cluster, ObjectKey}
use cluster_api_provider_nom.Api.NomadMachine.{NomadMachine}
use cluster_api_provider_nom.Controllers.Reply.{finished}
use cluster_api_provider_nom.Controllers.MachineReconcile.{reconcile, reconcile_owned}

-- Where a machine, its owner and its cluster are found, and the cluster or the machine is paused,
-- the run ends with no error and no wish to run again, and its only calls are the three reads.
pub reconcile_paused :
    (K : Kit) (W : World) (fuel : ℕ) (key : ObjectKey) (sys : Sys W.State)
    (nomad_machine : NomadMachine) (machine : Machine) (cluster : Cluster) {w₁ w₂ w₃ : W.State}
    → W.get_nomad_machine key sys.world ≡ (ok nomad_machine, w₁)
    → W.get_owner_machine nomad_machine.meta w₁ ≡ (ok (some machine), w₂)
    → W.get_cluster_from_metadata machine.meta w₂ ≡ (ok cluster, w₃)
    → K.is_paused cluster nomad_machine.meta ≡ true
    → let (r, sys') = reconcile K W fuel key sys in
      (r ≡ returned finished)
      × (sys'.calls
          ≡ get_owner "Cluster" machine.meta
            ∷ get_owner "Machine" nomad_machine.meta
            ∷ get_object "NomadMachine" key
            ∷ sys.calls)
      × (sys'.world ≡ w₃)
unfolding reconcile reconcile_owned ◌>>=◌
reconcile_paused K W fuel key sys nomad_machine machine cluster found owner owned paused =
    rw found (rw owner (rw owned (rw paused (refl, refl, refl))))

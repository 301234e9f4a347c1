-- ===== src/Tests/Systems.antt =====
-- The whole provider on concrete inputs: `main`, runs of both `Reconcile`s, and interleavings.
use mathlib.Core.Bool.{false≢true}
use cluster_api_provider_nom.Base.{
  ℕ, zero, suc, ◌+◌, ◌==◌, true, false, ◌≡◌, ◌↔◌, ◌⊎◌, refl, none, some, List, [], ◌∷◌, All, arith,
  if◌then◌else◌,
}
use cluster_api_provider_nom.Base.Text.{eq_iff}
use cluster_api_provider_nom.World.Error.{fresh, ok}
use cluster_api_provider_nom.World.Wire.{
  Call, NomadConfig, get_object, get_owner, patch_nomad_cluster,
}
use cluster_api_provider_nom.World.Remote.{World}
use cluster_api_provider_nom.World.Monad.{Panic, panicked, finally, ◌>>=◌}
use cluster_api_provider_nom.Api.Meta.{ObjectKey}
use cluster_api_provider_nom.Api.NomadMachine.{NomadMachine}
use cluster_api_provider_nom.Api.NomadCluster.{NomadCluster}
use cluster_api_provider_nom.Poller.Laws.{IsConsistent}
use cluster_api_provider_nom.Poller.Refines.{Turns, view}
use cluster_api_provider_nom.System.{
  Act, reconcile_machine, reconcile_cluster, goroutine, run_system,
}
use cluster_api_provider_nom.System.Laws.{run_system-IsConsistent}
use cluster_api_provider_nom.System.Refines.{run_system-Turns}
use cluster_api_provider_nom.Footprint.OnePatch.{
  Lookup, IsClusterPatched, IsMachinePatched, reconcile-IsClusterPatched,
  reconcile-IsMachinePatched,
}
use cluster_api_provider_nom.Controllers.MachineReconcile as Machines
use cluster_api_provider_nom.Controllers.ClusterReconcile as Clusters
use cluster_api_provider_nom.Controllers.ClusterReconcile.{
  add_cluster_finalizer, set_failure_domains, run_cluster_scope,
}
use cluster_api_provider_nom.Api.NomadCluster.{cluster_finalizer}
use cluster_api_provider_nom.Scope.ClusterScope.{new_cluster_scope, close_cluster_scope, summarize}
use cluster_api_provider_nom.Controllers.ClusterReconcile.SecondRun.{
  ShowsEndpoint, second_run-ShowsEndpoint,
}
use cluster_api_provider_nom.Controllers.MachineNormal.{reconcile_normal, resolve_user_data}
use cluster_api_provider_nom.Controllers.MachineNormal.Status.{Shows}
use cluster_api_provider_nom.Controllers.MachineNormal.Deploys.{reconcile_normal-Shows}
use cluster_api_provider_nom.Controllers.Requests.{
  nomad_machine, is_control_plane_machine, control_plane_machine_to_cluster,
}
use cluster_api_provider_nom.Controllers.Requests.Panics.{
  IsUnreferenced, control_plane_machine_to_cluster-panicked_iff,
}
use cluster_api_provider_nom.Machine.Job.{failure_domain}
use cluster_api_provider_nom.Machine.Service.{new_service, deployment_to_machine}
use cluster_api_provider_nom.Machine.Service.Polling.{stop, round}
use cluster_api_provider_nom.Scope.Clients.{new_nomad_client}
use cluster_api_provider_nom.Scope.MachineScope.{
  get_provider_id, set_provider_id, get_raw_bootstrap_data,
}
use cluster_api_provider_nom.Scope.MachineScope.ProviderId.{
  has_slash, read_provider_id, read-set_provider_id,
}
use cluster_api_provider_nom.Manager.Boot.{Flags, Step, Host, Process}
use cluster_api_provider_nom.Manager.Boot as Boot
use cluster_api_provider_nom.Manager.Setup.{init_flags, main}
use cluster_api_provider_nom.Manager.Laws.{plan, Outcome, main-Outcome}
use cluster_api_provider_nom.Tests.Fixtures
use cluster_api_provider_nom.Tests.Fixtures.{
  kit, kit-IsLawful, world, machine, cluster, deployment, evaluation, cluster_scope, machine_scope,
  running, fresh_start,
}

-- Libraries whose sixth step fails: the mapper of the machine controller.
abbrev host : Host
host = record {
  State = ℕ;
  parse_flags = λ flags w. (Boot.goes_on flags, w);
  attempt = λ step w. (if w == 5 then some (fresh "no mapper") else none, w + 1);
}

main-Outcome_example :
    let run = main host (record { host = 0; steps = [] }) in
    Outcome host (plan init_flags) (record { host = 0; steps = [] }) run.0 run.1
main-Outcome_example = main-Outcome host init_flags refl

abbrev key : ObjectKey
key = record { key_namespace = "default"; key_name = "prod" }

reconcile-IsClusterPatched_example :
    let t = (Clusters.reconcile kit world key fresh_start).1 in
    All Lookup t.calls ⊎ IsClusterPatched t
reconcile-IsClusterPatched_example = reconcile-IsClusterPatched kit world key fresh_start refl

reconcile-IsMachinePatched_example :
    let t = (Machines.reconcile kit world 5 key fresh_start).1 in
    All Lookup t.calls ⊎ IsMachinePatched t
reconcile-IsMachinePatched_example = reconcile-IsMachinePatched kit world 5 key fresh_start refl

-- Both reconcilers run, and the goroutine that the second one started takes its three actions.
abbrev acts : List Act
acts =
    reconcile_machine key
    ∷ reconcile_cluster key
    ∷ reconcile_cluster key
    ∷ goroutine 0
    ∷ goroutine 0
    ∷ goroutine 0
    ∷ []

run_system-IsConsistent_example : IsConsistent (run_system kit world 5 acts fresh_start).1.polls
run_system-IsConsistent_example =
    run_system-IsConsistent kit world 5 acts fresh_start (record { keys = refl; distinct = tt })

run_system-Turns_example :
    Turns
      (record { phase = none; sent = 0 })
      (view "uid-prod" (run_system kit world 5 acts fresh_start).1.polls)
run_system-Turns_example = run_system-Turns "uid-prod" kit world 5 acts fresh_start refl

-- The cluster as the API server has it before the first run, without the finalizer, and before the
-- second, with the finalizer of the first run's patch.
abbrev stored : ℕ → NomadCluster
stored zero = Fixtures.nomad_cluster [] none
stored (suc w) = Fixtures.nomad_cluster (cluster_finalizer ∷ []) none

abbrev young : World
young = record world {
  get_nomad_cluster = λ _ w. (ok (stored w), w);
  patch_nomad_cluster = λ _ _ _ w. (none, suc w);
}

second_run-ShowsEndpoint_example :
    (c : NomadCluster) × (earlier : List Call) × ((Clusters.reconcile kit young key
        (record fresh_start { world = 1 })).1.calls
      ≡ patch_nomad_cluster c ∷ earlier)
    × ShowsEndpoint cluster c
unfolding Clusters.reconcile new_cluster_scope run_cluster_scope Clusters.reconcile_cluster
    set_failure_domains Clusters.reconcile_normal add_cluster_finalizer close_cluster_scope
    summarize finally ◌>>=◌
second_run-ShowsEndpoint_example =
    second_run-ShowsEndpoint kit kit-IsLawful young key fresh_start
      (record fresh_start { world = 1 }) (stored 0) (stored 1)
      (summarize kit (add_cluster_finalizer kit (set_failure_domains (stored 0)))) cluster cluster
      (get_owner "Cluster" (stored 0).meta ∷ get_object "NomadCluster" key ∷ [])
      (record {
        after_read = 0;
        read = refl;
        after_owner = 0;
        owned = refl;
        after_helper = 0;
        helped = refl;
      })
      refl refl
      (record {
        after_read = 1;
        read = refl;
        after_owner = 1;
        owned = refl;
        after_helper = 1;
        helped = refl;
      })
      refl refl

abbrev bare : NomadMachine
bare = Fixtures.nomad_machine [] none false

read-set_provider_id_example :
    let m = set_provider_id "cp0" "d1" bare in
    (read_provider_id (get_provider_id m) ≡ some ("cp0", "d1"))
    × (m.meta ≡ bare.meta)
    × (m.status ≡ bare.status)
    × (record (m.spec) { provider_id = none } ≡ record (bare.spec) { provider_id = none })
unfolding has_slash
read-set_provider_id_example = read-set_provider_id "cp0" "d1" bare refl

abbrev unreferenced_world : World
unreferenced_world = record world {
  get_cluster_from_metadata = λ _ w. (ok (record cluster { infrastructure_ref = none }), w);
}

control_plane_machine_to_cluster-panicked_iff_example :
    ((p : Panic) × ((control_plane_machine_to_cluster unreferenced_world
          (nomad_machine bare)
          fresh_start).0
        ≡ panicked p))
    ↔ ((is_control_plane_machine bare ≡ true)
        × IsUnreferenced (unreferenced_world.get_cluster_from_metadata bare.meta 0).0)
control_plane_machine_to_cluster-panicked_iff_example =
    control_plane_machine_to_cluster-panicked_iff unreferenced_world bare fresh_start

abbrev config : NomadConfig
config = record { address = "http://server"; secret_id = "http://server"; region = "global" }

reconcile_normal-Shows_example :
    Shows kit
      (deployment_to_machine machine_scope deployment)
      (reconcile_normal kit world 5 machine_scope running).1.nomad_machine
unfolding new_service resolve_user_data failure_domain new_nomad_client get_raw_bootstrap_data ◌>>=◌
reconcile_normal-Shows_example =
    reconcile_normal-Shows kit world 5 machine_scope running config "#cloud-config" "dc1" refl refl
      refl "e1" 2 (evaluation 2) deployment refl (λ e. false≢true ((eq_iff _ _).1 e))
      (round (evaluation 0) refl refl (round (evaluation 1) refl refl stop)) refl refl (omega arith)
      refl kit-IsLawful refl refl refl

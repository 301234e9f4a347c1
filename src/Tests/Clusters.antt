-- ===== src/Tests/Clusters.antt =====
-- The cluster controller on concrete objects.
use cluster_api_provider_nom.Base.{
  List, true, false, ◌≡◌, ◌≢◌, ◌↔◌, refl, none, some, [], ◌∷◌, contains, lookup,
}
use cluster_api_provider_nom.World.Wire.{patch_nomad_cluster}
use cluster_api_provider_nom.World.Ensures.{Ends}
use cluster_api_provider_nom.Api.Meta.{Machine}
use cluster_api_provider_nom.Api.NomadCluster.{NomadCluster, cluster_finalizer}
use cluster_api_provider_nom.Controllers.ClusterReconcile.{
  set_failure_domains, reconcile_normal, run_cluster_scope,
}
use cluster_api_provider_nom.Controllers.ClusterReconcile.Domains.{
  control_plane_domain, lookup-set_failure_domains,
}
use cluster_api_provider_nom.Controllers.ClusterReconcile.Delete.{run_cluster_scope_deleted}
use cluster_api_provider_nom.Controllers.ClusterReconcile.Endpoint.{
  IsServed, reconcile_normal-IsServed,
}
use cluster_api_provider_nom.Controllers.Requests.{machine_requests}
use cluster_api_provider_nom.Controllers.Requests.Laws.{
  IsIn, IsKeyOf, infra_key, machine_requests_iff,
}
use cluster_api_provider_nom.World.Wire.{Call}
use cluster_api_provider_nom.Controllers.ClusterReconcile.Finalizer.{
  run_cluster_scope-has_finalizer,
}
use cluster_api_provider_nom.Tests.Fixtures.{
  kit, kit-IsLawful, world, machine, nomad_cluster, cluster_scope, running, deleted,
}

lookup-set_failure_domains_example :
    lookup "dc2" (set_failure_domains (nomad_cluster [] none)).status.failure_domains
    ≡ some control_plane_domain
lookup-set_failure_domains_example = lookup-set_failure_domains (nomad_cluster [] none) "dc2"

run_cluster_scope_deleted_example :
    (c : NomadCluster) × ((run_cluster_scope kit world cluster_scope deleted).1.calls
      ≡ patch_nomad_cluster c ∷ [])
    × (contains c.meta.finalizers cluster_finalizer ≡ false)
run_cluster_scope_deleted_example =
    run_cluster_scope_deleted kit kit-IsLawful world cluster_scope deleted refl

reconcile_normal-IsServed_example :
    let t = reconcile_normal kit world cluster_scope running in
    Ends (IsServed kit kit-IsLawful world cluster_scope) (λ _. ⊥) t.0 t.1
reconcile_normal-IsServed_example =
    reconcile_normal-IsServed kit kit-IsLawful world cluster_scope running refl

abbrev bare_machine : Machine
bare_machine = record machine { infrastructure_ref = record { ref_namespace = ""; ref_name = "" } }

machine_requests_iff_example :
    IsIn (infra_key machine) (machine_requests (bare_machine ∷ machine ∷ [])) ↔ (
      IsKeyOf (infra_key machine) (bare_machine ∷ machine ∷ [])
      × ((infra_key machine).key_name ≢ ""))
machine_requests_iff_example =
    machine_requests_iff (bare_machine ∷ machine ∷ []) (infra_key machine)

run_cluster_scope-has_finalizer_example :
    (c : NomadCluster) × (earlier : List Call) × ((run_cluster_scope kit world cluster_scope
        running).1.calls
      ≡ patch_nomad_cluster c ∷ earlier)
    × (contains c.meta.finalizers cluster_finalizer ≡ true)
run_cluster_scope-has_finalizer_example =
    run_cluster_scope-has_finalizer kit kit-IsLawful world cluster_scope running refl
